-- ===== src/Relay.antt =====
-- internal/outbox/relay.go: the relay that drains the outbox. What it has published stays published
-- when its transaction rolls back, so a drain also returns the rows that the broker took, in order.
pub mod Drained
pub mod Keeps
pub mod Emptied
use sayari.Prelude.{
  ℕ, zero, suc, ◌+◌, Bool, true, false, ltb, Option, none, some, List, [], ◌∷◌, ◌++◌, if◌then◌else◌,
}
use sayari.Store.{Db, OutboxRow}
use sayari.Store.Tx.{Error, Result, ok, err, Session, session, begin, commit, finish}
use sayari.Store.Outbox.{claim_outbox_batch, delete_outbox}

-- `broker.Publish` of a row: `none` is nil.
abbrev pub Broker : Type 0
Broker = OutboxRow → Option Error

-- The end of a transaction that publishes: its outcome, and the rows that were published.
abbrev pub Drain : Type 0 → Type 0
Drain A = Result (A × Session) × List OutboxRow

abbrev pub log_first : {A : Type 0} → OutboxRow → Drain A → Drain A
log_first r (res, log) = (res, r ∷ log)

-- The broker took the row: its deletion, and the rest of the loop.
abbrev pub publish_row : Result (Unit {0} × Session) → OutboxRow → (Session → Drain ℕ) → Drain ℕ
publish_row (err e) r rest = (err e, r ∷ [])
publish_row (ok (_, s)) r rest = log_first r (rest s)

-- The loop over the claimed rows, with the rows left to do, `n` done and the session.
unfoldable pub publish_rows : Broker → List OutboxRow → ℕ → Session → Drain ℕ
unfolding delete_outbox
publish_rows broker [] n s = (ok (n, s), [])
publish_rows broker (r ∷ rs) n s = elim (broker r) [
  | some e ↦ (err e, [])
  | none ↦ publish_row (delete_outbox r.id s) r (publish_rows broker rs (n + 1))
]

commit_drain : Drain ℕ → Drain ℕ
commit_drain (err e, log) = (err e, log)
commit_drain (ok (n, s), log) = elim (commit s) [
  | err e ↦ (err e, log)
  | ok (_, s') ↦ (ok (n, s'), log)
]

drain_claimed : Broker → Result (List OutboxRow × Session) → Drain ℕ
unfolding publish_rows commit_drain
drain_claimed broker (err e) = (err e, [])
drain_claimed broker (ok (rows, s)) = commit_drain (publish_rows broker rows 0 s)

drain_begun : Broker → (OutboxRow → Bool) → ℕ → Result (Unit {0} × Session) → Drain ℕ
unfolding drain_claimed claim_outbox_batch
drain_begun broker locked batch (err e) = (err e, [])
drain_begun broker locked batch (ok (_, s)) =
    drain_claimed broker (claim_outbox_batch locked batch s)

abbrev pub finish_drain : Db → Drain ℕ → (Result ℕ × Db) × List OutboxRow
finish_drain d (res, log) = (finish d res, log)

-- What the relay meets in one batch: its connection and time, the broker, the rows that other relays
-- have locked.
pub record Meeting : Type 0 where
  pub link : Option ℕ
  pub now : ℕ
  pub broker : Broker
  pub locked : OutboxRow → Bool

-- `Relay.drainBatch`.
unfoldable pub drain_batch : ℕ → Meeting → Db → (Result ℕ × Db) × List OutboxRow
unfolding drain_begun
drain_batch batch m d =
    finish_drain d (drain_begun m.broker m.locked batch (begin (session m.link m.now d)))

abbrev pub after_batch :
    (Db → Db × List OutboxRow) → ℕ → Bool → (Result ℕ × Db) × List OutboxRow → Db × List OutboxRow
after_batch again batch cancelled ((err e, d), log) = (d, log)
after_batch again batch cancelled ((ok n, d), log) =
    let (d', log') = again d in
    if ltb n batch then (d, log) else if cancelled then (d, log) else (d', log ++ log')

-- `Relay.drainAll`, on fuel: round `i` meets `meet i`, and finds the context done if `cancelled i`.
unfoldable pub drain_all : ℕ → ℕ → (ℕ → Meeting) → (ℕ → Bool) → ℕ → Db → Db × List OutboxRow
drain_all zero batch meet cancelled i d = (d, [])
drain_all (suc fuel) batch meet cancelled i d =
    after_batch (drain_all fuel batch meet cancelled (i + 1)) batch (cancelled i)
      (drain_batch batch (meet i) d)
