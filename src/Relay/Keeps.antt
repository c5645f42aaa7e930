-- ===== src/Relay/Keeps.antt =====
-- internal/outbox/relay.go: what a drain changes in the tables.
use sayari.Prelude.{
  ℕ, zero, suc, ◌+◌, ◌≤◌, Option, none, some, inl, inr, List, [], ◌∷◌, Option-cases, arith,
}
use sayari.Store.{Db, OutboxRow}
use sayari.Store.Tx.{ok, err, Session, session, begin, send}
use sayari.Store.Outbox.{claim_outbox_batch, without_row}
use sayari.Relay.{
  Broker, Drain, log_first, publish_row, publish_rows, commit_drain, drain_claimed, drain_begun,
  finish_drain, Meeting, drain_batch,
}
use sayari.Relay.Drained.{RowsBetween}

module _ (P : Db → Type 0)
    (delete : (k : ℕ) (d : Db) → P d → P (record d { outbox = without_row k d.outbox })) where
  abbrev Ends : Drain ℕ → Type 0
  Ends (err e, log) = Unit {0}
  Ends (ok (n, s), log) = P s.db

  Ends-log : (r : OutboxRow) (x : Drain ℕ) → Ends x → Ends (log_first r x)
  Ends-log r (err e, log) h = tt
  Ends-log r (ok (n, s), log) h = h

  Ends-row :
      (r : OutboxRow) (link : Option ℕ) (now : ℕ) (d : Db) (rest : Session → Drain ℕ)
      → ((link : Option ℕ) → Ends (rest (session link now d)))
      → Ends (publish_row (send link now (ok (tt, d))) r rest)
  Ends-row r none now d rest f = Ends-log r (rest (session none now d)) (f none)
  Ends-row r (some zero) now d rest f = tt
  Ends-row r (some (suc n)) now d rest f = Ends-log r (rest (session (some n) now d)) (f (some n))

  publish_rows-Ends :
      (broker : Broker) (rs : List OutboxRow) (n : ℕ) (link : Option ℕ) (now : ℕ) (d : Db)
      → P d
      → Ends (publish_rows broker rs n (session link now d))
  unfolding publish_rows
  publish_rows-Ends broker [] n link now d h = h
  publish_rows-Ends broker (r ∷ rs) n link now d h = elim (Option-cases (broker r)) [
    | inr (e, refused) ↦ rw (refused, publish_rows) tt
    | inl taken ↦
        rw (taken, publish_rows)
          (Ends-row r link now _ (publish_rows broker rs (n + 1))
            (λ link. publish_rows-Ends broker rs (n + 1) link now _ (delete r.id d h)))
  ]

  Ends-commit :
      (n : ℕ) (link : Option ℕ) (now : ℕ) (d : Db) (log : List OutboxRow)
      → P d
      → Ends (commit_drain (ok (n, session link now d), log))
  unfolding commit_drain
  Ends-commit n none now d log h = h
  Ends-commit n (some zero) now d log h = tt
  Ends-commit n (some (suc k)) now d log h = h

  Ends-commit_any : (x : Drain ℕ) → Ends x → Ends (commit_drain x)
  unfolding commit_drain
  Ends-commit_any (err e, log) h = tt
  Ends-commit_any (ok (n, s), log) h = Ends-commit n s.link s.now s.db log h

  Ends-claimed :
      (m : Meeting) (batch : ℕ) (link : Option ℕ) (d : Db)
      → P d
      → Ends (drain_claimed m.broker (claim_outbox_batch m.locked batch (session link m.now d)))
  unfolding drain_claimed claim_outbox_batch
  Ends-claimed m batch none d h = Ends-commit_any _ (publish_rows-Ends m.broker _ 0 none m.now d h)
  Ends-claimed m batch (some zero) d h = tt
  Ends-claimed m batch (some (suc n)) d h =
      Ends-commit_any _ (publish_rows-Ends m.broker _ 0 (some n) m.now d h)

  Ends-begun :
      (m : Meeting) (batch : ℕ) (link : Option ℕ) (d : Db)
      → P d
      → Ends (drain_begun m.broker m.locked batch (begin (session link m.now d)))
  unfolding drain_begun
  Ends-begun m batch none d h = Ends-claimed m batch none d h
  Ends-begun m batch (some zero) d h = tt
  Ends-begun m batch (some (suc n)) d h = Ends-claimed m batch (some n) d h

  Ends-finish : (d : Db) (x : Drain ℕ) → P d → Ends x → P (finish_drain d x).0.1
  Ends-finish d (err e, log) h k = h
  Ends-finish d (ok (n, s), log) h k = k

  -- What deletions of outbox rows keep, a drain keeps.
  pub drain_batch-keeps : (batch : ℕ) (m : Meeting) (d : Db) → P d → P (drain_batch batch m d).0.1
  unfolding drain_batch
  drain_batch-keeps batch m d h = Ends-finish d _ h (Ends-begun m batch m.link d h)

pub RowsBetween-weaken :
    (lo mid hi : ℕ) (rows : List OutboxRow)
    → lo ≤ mid
    → RowsBetween mid hi rows
    → RowsBetween lo hi rows
RowsBetween-weaken lo mid hi [] h b = omega arith
RowsBetween-weaken lo mid hi (r ∷ rs) h b = (omega arith, b.1)

without-RowsBetween :
    (k lo hi : ℕ) (rows : List OutboxRow)
    → RowsBetween lo hi rows
    → RowsBetween lo hi (without_row k rows)
without-RowsBetween k lo hi [] b = b
without-RowsBetween k lo hi (r ∷ rs) b = ground (
  arith,
  without-RowsBetween k (suc r.id) hi rs b.1,
  RowsBetween-weaken lo (suc r.id) hi (without_row k rs),
)

-- A drain leaves the rows in order.
pub drain_batch-RowsBetween :
    (batch : ℕ) (m : Meeting) (d : Db)
    → RowsBetween 0 d.next_outbox d.outbox
    → RowsBetween 0 (drain_batch batch m d).0.1.next_outbox (drain_batch batch m d).0.1.outbox
drain_batch-RowsBetween =
    drain_batch-keeps (λ d. RowsBetween 0 d.next_outbox d.outbox)
      (λ k d b. without-RowsBetween k 0 d.next_outbox d.outbox b)
