-- ===== src/Relay/Emptied.antt =====
-- internal/outbox/relay.go: `drainAll` where nothing fails.
use sayari.Prelude.{
  ℕ, zero, suc, ◌+◌, ◌<◌, ◌≡◌, refl, sym, ap, ◌∙◌, Bool, false, not, ltb, none, List, [], ◌∷◌, ◌++◌,
  inl, inr, select, take, drop, length, length-append, take-append-drop, arith, Bool-cases,
}
use sayari.Store.{Db, OutboxRow}
use sayari.Store.Tx.{ok, session}
use sayari.Store.Outbox.{delete_outbox, without_row}
use sayari.Relay.{Broker, publish_rows, drain_batch, drain_all, Meeting}
use sayari.Relay.Drained.{RowsBetween}
use sayari.Relay.Keeps.{RowsBetween-weaken}

without-above :
    (k lo hi : ℕ) (rows : List OutboxRow)
    → RowsBetween lo hi rows
    → k < lo
    → without_row k rows ≡ rows
without-above k lo hi [] b h = refl
without-above k lo hi (r ∷ rs) b h = ground (arith, without-above k (suc r.id) hi rs b.1)

without-first :
    (r : OutboxRow) (hi : ℕ) (rs : List OutboxRow)
    → RowsBetween (suc r.id) hi rs
    → without_row r.id (r ∷ rs) ≡ rs
without-first r hi rs b = ground (arith, without-above r.id (suc r.id) hi rs b)

abbrev pub with_outbox : Db → List OutboxRow → Db
with_outbox d rows = record d { outbox = rows }

publish_all :
    (broker : Broker) (rs rest : List OutboxRow) (n total now lo hi : ℕ) (d : Db)
    → ((r : OutboxRow) → broker r ≡ none)
    → RowsBetween lo hi (rs ++ rest)
    → total ≡ n + length rs
    → publish_rows broker rs n (session none now (with_outbox d (rs ++ rest)))
      ≡ (ok (total, session none now (with_outbox d rest)), rs)
unfolding publish_rows delete_outbox
publish_all broker [] rest n total now lo hi d takes b e =
    let same : n ≡ total = omega (arith, e) in rw same refl
publish_all broker (r ∷ rs) rest n total now lo hi d takes b e = rw (
  takes r,
  publish_rows,
  without-first r hi (rs ++ rest) b.1,
  publish_all broker rs rest (n + 1) total now (suc r.id) hi d takes b.1 (omega (arith, e)),
)

-- Nothing fails and no other relay holds a row.
abbrev pub IsHealthy : Meeting → Type 0
IsHealthy m =
    (m.link ≡ none) × ((r : OutboxRow) → m.broker r ≡ none) × ((r : OutboxRow) → m.locked r ≡ false)

select_unlocked :
    (locked : OutboxRow → Bool) (rows : List OutboxRow)
    → ((r : OutboxRow) → locked r ≡ false)
    → select (λ r. not (locked r)) rows ≡ rows
select_unlocked locked [] h = refl
select_unlocked locked (r ∷ rs) h = rw (h r, select_unlocked locked rs h)

publish_batch :
    (batch : ℕ) (broker : Broker) (now : ℕ) (d : Db) (hi : ℕ)
    → ((r : OutboxRow) → broker r ≡ none)
    → RowsBetween 0 hi d.outbox
    → publish_rows broker (take batch d.outbox) 0 (session none now d) ≡ (
      ok (length (take batch d.outbox), session none now (with_outbox d (drop batch d.outbox))),
      take batch d.outbox,
    )
publish_batch batch broker now d hi takes b =
    ap (λ rows. publish_rows broker (take batch d.outbox) 0 (session none now (with_outbox d rows)))
      (sym (take-append-drop batch d.outbox))
    ∙ publish_all broker (take batch d.outbox) (drop batch d.outbox) 0 _ now 0 hi d takes
        (rw (take-append-drop batch d.outbox) b) (omega arith)

drain_batch_healthy :
    (batch : ℕ) (m : Meeting) (d : Db) (hi : ℕ)
    → IsHealthy m
    → RowsBetween 0 hi d.outbox
    → drain_batch batch m d ≡ (
      (ok (length (take batch d.outbox)), with_outbox d (drop batch d.outbox)),
      take batch d.outbox,
    )
unfolding drain_batch
drain_batch_healthy batch m d hi (link, takes, free) b =
    rw (
      link,
      select_unlocked m.locked d.outbox free,
      publish_batch batch m.broker m.now d hi takes b,
    )

drop-RowsBetween :
    (n lo hi : ℕ) (rows : List OutboxRow) → RowsBetween lo hi rows → RowsBetween lo hi (drop n rows)
drop-RowsBetween zero lo hi rows b = b
drop-RowsBetween (suc n) lo hi [] b = b
drop-RowsBetween (suc n) lo hi (r ∷ rs) b =
    RowsBetween-weaken lo (suc r.id) hi (drop n rs) (omega arith)
      (drop-RowsBetween n (suc r.id) hi rs b.1)

length-take-drop :
    (n : ℕ) (rows : List OutboxRow) → length (take n rows) + length (drop n rows) ≡ length rows
length-take-drop n rows =
    rw (sym (length-append (take n rows) (drop n rows)), take-append-drop n rows) refl

-- A batch that is not full was the rest of the outbox.
short_take :
    (n : ℕ) (rows : List OutboxRow)
    → length (take n rows) < n
    → (take n rows ≡ rows) × (drop n rows ≡ [])
short_take zero rows h = absurd (omega arith)
short_take (suc n) [] h = (refl, refl)
short_take (suc n) (r ∷ rs) h = let rest = short_take n rs (omega arith) in (rw rest.0 refl, rest.1)

-- Where the broker takes every message, no connection fails, no other relay holds a row, the
-- context is not cancelled, the batch size is not zero and the rows are in order, `drainAll` ends,
-- with the outbox empty and every row published once, in order: fuel above the number of rows is enough.
pub drain_all_healthy :
    (fuel batch i hi : ℕ) (meet : ℕ → Meeting) (cancelled : ℕ → Bool) (d : Db)
    → ((k : ℕ) → IsHealthy (meet k))
    → ((k : ℕ) → cancelled k ≡ false)
    → 0 < batch
    → RowsBetween 0 hi d.outbox
    → length d.outbox < fuel
    → drain_all fuel batch meet cancelled i d ≡ (with_outbox d [], d.outbox)
unfolding drain_all
drain_all_healthy zero batch i hi meet cancelled d healthy runs pos b h = absurd (omega (arith, h))
drain_all_healthy (suc fuel) batch i hi meet cancelled d healthy runs pos b h =
    elim (Bool-cases (ltb (length (take batch d.outbox)) batch)) [
      | inl short ↦
          let rest = short_take batch d.outbox (ground (arith, short)) in
          rw (drain_batch_healthy batch (meet i) d hi (healthy i) b, short, rest.0, rest.1) refl
      | inr full ↦
          let again =
            drain_all_healthy fuel batch (i + 1) hi meet cancelled
              (with_outbox d (drop batch d.outbox)) healthy runs pos
              (drop-RowsBetween batch 0 hi d.outbox b)
              (ground (arith, full, length-take-drop batch d.outbox, pos, h)) in
          rw
            (
              drain_batch_healthy batch (meet i) d hi (healthy i) b,
              full,
              runs i,
              again,
              take-append-drop batch d.outbox,
            )
            refl
    ]
