-- ===== src/Queue/AtLeastOnce.antt =====
-- internal/queue/redis.go: the consumer and the pending list.
use sayari.Prelude.{
  ℕ, zero, suc, ◌≡◌, ◌≢◌, refl, ◌⊎◌, inl, inr, Option, none, some, List, [], ◌∷◌, Any,
  Any-append_left, Any-append_right, Bool-cases, Option-cases, Text, ◌==◌, ==_iff, arith,
}
use sayari.Queue.{Message}
use sayari.Store.Tx.{Error}
use sayari.Queue.Consumer.{
  XMessage, Redis, Log, message_of, acknowledge, handle_one, and_then, handle_all, handle_answer,
  read_new, after_reclaim, consume_round, consume, ensure_group, consume_group,
}

-- What the commands do to the pending list: a claim and a read take nothing from it, an
-- acknowledgement takes its own message.
pub record KeepsPending {S : Type 0} (redis : Redis S) (Pending : S → ℕ → Type 0) : Type 0 where
  pub ack : (s : S) (i j : ℕ) → i ≢ j → Pending s i → Pending (redis.x_ack j s) i
  pub claim : (s : S) (i : ℕ) → Pending s i → Pending (redis.x_auto_claim s).1 i
  pub read : (s : S) (i : ℕ) → Pending s i → Pending (redis.x_read_group s).1 i

module _ {S W : Type 0} (redis : Redis S) (handler : Message → W → Option Error × W)
    (Pending : S → ℕ → Type 0) (keeps : KeepsPending redis Pending) (i : ℕ) where
  -- The message is pending still, or a handler has answered nil for it.
  abbrev Kept : (W × S) × Log → Type 0
  Kept r = Pending r.0.1 i ⊎ Any (λ call. call ≡ (i, none)) r.1

  acknowledge-Kept :
      (m : XMessage) (r : Option Error × W) (s : S)
      → Pending s i
      → Kept (acknowledge redis handler m r s)
  unfolding acknowledge
  acknowledge-Kept m (some e, w) s p = inl p
  acknowledge-Kept m (none, w) s p = elim (Bool-cases (i == m.id)) [
    | inl same ↦ inr (inl (rw ((==_iff i m.id).0 same) refl))
    | inr other ↦ inl (keeps.ack s i m.id (ground (arith, other)) p)
  ]

  handle_one-Kept :
      (m : XMessage) (st : W × S) → Pending st.1 i → Kept (handle_one redis handler m st)
  unfolding handle_one
  handle_one-Kept m (w, s) p = acknowledge-Kept m (handler (message_of m) w) s p

  and_then-Kept :
      (a : (W × S) × Log) (f : W × S → (W × S) × Log)
      → Kept a
      → ((st : W × S) → Pending st.1 i → Kept (f st))
      → Kept (and_then redis handler a f)
  and_then-Kept (st, log) f (inl p) next = elim (next st p) [
    | inl q ↦ inl q
    | inr later ↦ inr (Any-append_right (λ call. call ≡ (i, none)) log (f st).1 later)
  ]
  and_then-Kept (st, log) f (inr done) next =
      inr (Any-append_left (λ call. call ≡ (i, none)) log (f st).1 done)

  handle_all-Kept :
      (ms : List XMessage) (st : W × S) → Pending st.1 i → Kept (handle_all redis handler ms st)
  unfolding handle_all
  handle_all-Kept [] st p = inl p
  handle_all-Kept (m ∷ ms) st p =
      and_then-Kept (handle_one redis handler m st) (handle_all redis handler ms)
        (handle_one-Kept m st p) (handle_all-Kept ms)

  handle_answer-Kept :
      (w : W) (r : Option (List XMessage) × S)
      → Pending r.1 i
      → Kept (handle_answer redis handler w r)
  unfolding handle_answer
  handle_answer-Kept w (none, s) p = inl p
  handle_answer-Kept w (some ms, s) p = handle_all-Kept ms (w, s) p

  read_new-Kept : (st : W × S) → Pending st.1 i → Kept (read_new redis handler st)
  unfolding read_new
  read_new-Kept (w, s) p = handle_answer-Kept w (redis.x_read_group s) (keeps.read s i p)

  after_reclaim-Kept :
      (w : W) (r : Option (List XMessage) × S)
      → Pending r.1 i
      → Kept (after_reclaim redis handler w r)
  unfolding after_reclaim
  after_reclaim-Kept w (none, s) p = read_new-Kept (w, s) p
  after_reclaim-Kept w (some [], s) p = read_new-Kept (w, s) p
  after_reclaim-Kept w (some (m ∷ ms), s) p = handle_all-Kept (m ∷ ms) (w, s) p

  consume_round-Kept : (st : W × S) → Pending st.1 i → Kept (consume_round redis handler st)
  unfolding consume_round
  consume_round-Kept (w, s) p = after_reclaim-Kept w (redis.x_auto_claim s) (keeps.claim s i p)

  -- After any number of rounds of the consumer, a message that was pending is pending
  -- still, or the handler was called for it and answered nil; if a claim and a read take nothing
  -- from the pending list, and an acknowledgement only its own message.
  pub consume-Kept :
      (rounds : ℕ) (st : W × S)
      → Pending st.1 i
      → Pending (consume redis handler rounds st).0.1 i
        ⊎ Any (λ call. call ≡ (i, none)) (consume redis handler rounds st).1
  unfolding consume
  consume-Kept zero st p = inl p
  consume-Kept (suc rounds) st p =
      and_then-Kept (consume_round redis handler st) (consume redis handler rounds)
        (consume_round-Kept st p) (consume-Kept rounds)

  -- `Consume`, at least once. If the group cannot be created, it returns the error at once and
  -- handles nothing. Else it returns nil, and after any number of rounds a message that was pending
  -- is pending still, or the handler was called for it and answered nil; if a claim and a read take
  -- nothing from the pending list, and an acknowledgement only its own message.
  pub consume_group-Kept :
      (created : Option Text) (rounds : ℕ) (st : W × S)
      → Pending st.1 i
      → ((e : Text) × ((ensure_group created ≡ some e)
            × (consume_group redis handler created rounds st ≡ (some e, (st, [])))))
        ⊎ ((ensure_group created ≡ none)
            × (((consume_group redis handler created rounds st).0 ≡ none)
                × (Pending (consume_group redis handler created rounds st).1.0.1 i
                    ⊎ Any
                        (λ call. call ≡ (i, none))
                        (consume_group redis handler created rounds st).1.1)))
  unfolding consume_group
  consume_group-Kept created rounds st p = elim (Option-cases (ensure_group created)) [
    | inl there ↦ inr (there, rw there (refl, consume-Kept rounds st p))
    | inr (e, failed) ↦ inl (e, (failed, rw failed refl))
  ]
