-- ===== src/Tests/Broker.antt =====
-- internal/queue/redis.go over a small Redis: its state is the list of the pending ids, a claim
-- answers all of them, and nothing new arrives.
use sayari.Prelude.{
  ◌⊎◌, ℕ, ◌≡◌, ◌≢◌, refl, sym, inl, inr, not, ◌==◌, ==_iff, Bool, true, false, Bool-cases, Option,
  none, some, List, [], ◌∷◌, ◌∙◌, Any, Text, codes, select, map, if◌then◌else◌,
}
use sayari.Strings.{contains}
use sayari.Queue.{Message}
use sayari.Store.Tx.{Error, upstream}
use sayari.Queue.Consumer.{XMessage, Redis, consume, ensure_group, consume_group}
use sayari.Queue.AtLeastOnce.{KeepsPending, consume_group-Kept}

abbrev entry : ℕ → XMessage
entry i = record { id = i; payload = none; key = none }

abbrev small_redis : Redis (List ℕ)
small_redis = record {
  x_ack = λ i s. select (λ j. not (j == i)) s;
  x_auto_claim = λ s. (some (map entry s), s);
  x_read_group = λ s. (none, s);
}

abbrev Waits : List ℕ → ℕ → Type 0
Waits s i = Any (λ j. j ≡ i) s

ack_keeps : (s : List ℕ) (i j : ℕ) → i ≢ j → Waits s i → Waits (select (λ k. not (k == j)) s) i
ack_keeps [] i j ne h = h
ack_keeps (k ∷ s) i j ne (inl e) = elim (Bool-cases (k == j)) [
  | inl same ↦ absurd (ne (sym e ∙ (==_iff k j).0 same))
  | inr other ↦ rw other (inl e)
]
ack_keeps (k ∷ s) i j ne (inr h) = elim (Bool-cases (k == j)) [
  | inl same ↦ rw same (ack_keeps s i j ne h)
  | inr other ↦ rw other (inr (ack_keeps s i j ne h))
]

small_redis_keeps : KeepsPending small_redis Waits
small_redis_keeps = record { ack = ack_keeps; claim = λ s i p. p; read = λ s i p. p }

-- The handler fails on its first call, and succeeds later.
abbrev second_time : Message → Bool → Option Error × Bool
second_time msg called = if called then (none, true) else (some upstream, true)

two_rounds :
    consume small_redis second_time 2 (false, 7 ∷ 8 ∷ [])
    ≡ ((true, []), (7, some upstream) ∷ (8, none) ∷ (7, none) ∷ [])
unfolding consume
two_rounds = refl

-- The group is there already.
abbrev busy : Text
busy = codes "BUSYGROUP Consumer Group name already exists"

taken_up :
    consume_group small_redis second_time (some busy) 2 (false, 7 ∷ 8 ∷ [])
    ≡ (none, ((true, []), (7, some upstream) ∷ (8, none) ∷ (7, none) ∷ []))
unfolding consume consume_group contains
taken_up = refl

consume_group-Kept_example :
    ((e : Text) × ((ensure_group (some busy) ≡ some e)
        × (consume_group small_redis second_time (some busy) 2 (false, 7 ∷ 8 ∷ [])
            ≡ (some e, ((false, 7 ∷ 8 ∷ []), [])))))
    ⊎ ((ensure_group (some busy) ≡ none)
        × (((consume_group small_redis second_time (some busy) 2 (false, 7 ∷ 8 ∷ [])).0 ≡ none)
            × (Waits
                  (consume_group small_redis second_time (some busy) 2 (false, 7 ∷ 8 ∷ [])).1.0.1
                  7
                ⊎ Any
                    (λ call. call ≡ (7, none))
                    (consume_group small_redis second_time (some busy) 2 (false, 7 ∷ 8 ∷ [])).1.1)))
consume_group-Kept_example =
    consume_group-Kept small_redis second_time Waits small_redis_keeps 7 (some busy) 2
      (false, 7 ∷ 8 ∷ []) (inl refl)
