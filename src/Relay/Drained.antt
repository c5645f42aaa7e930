-- ===== src/Relay/Drained.antt =====
-- internal/outbox/relay.go: the messages of the outbox across a drain, whatever fails.
use sayari.Prelude.{
  ℕ, zero, suc, ◌+◌, ◌≤◌, ◌<◌, ◌≡◌, refl, subst, not, ◌==◌, ==_iff, Option, none, some, List, [],
  ◌∷◌, ◌⊎◌, inl, inr, All, Any, All-select, All-take, select, take, arith, Bool-cases, Option-cases,
}
use sayari.Store.{Db, OutboxRow}
use sayari.Store.Tx.{ok, err, Session, session, begin, send}
use sayari.Store.Outbox.{claim_outbox_batch, without_row}
use sayari.Relay.{
  Broker, Drain, log_first, publish_row, publish_rows, commit_drain, drain_claimed, drain_begun,
  finish_drain, Meeting, drain_batch,
}

-- The rows of the outbox stand in the order of their ids, which ascend from `lo` and stay below `hi`.
abbrev pub RowsBetween : ℕ → ℕ → List OutboxRow → Type 0
RowsBetween lo hi [] = lo ≤ hi
RowsBetween lo hi (r ∷ rs) = (lo ≤ r.id) × RowsBetween (suc r.id) hi rs

-- `r` is the only row of its id.
abbrev pub OnlyRow : List OutboxRow → OutboxRow → Type 0
OnlyRow rows r = All (λ x. x.id ≡ r.id → x ≡ r) rows

rows_above :
    (lo hi : ℕ) (rows : List OutboxRow) (r : OutboxRow)
    → RowsBetween lo hi rows
    → r.id < lo
    → OnlyRow rows r
rows_above lo hi [] r b h = tt
rows_above lo hi (x ∷ xs) r b h =
    (λ e. absurd (omega arith), rows_above (suc x.id) hi xs r b.1 (omega arith))

rows_below :
    (x : OutboxRow) (hi : ℕ) (rows : List OutboxRow)
    → (lo : ℕ) → x.id < lo
    → RowsBetween lo hi rows
    → All (OnlyRow rows) rows
    → All (OnlyRow (x ∷ rows)) rows
rows_below x hi rows lo h b all = widen rows lo h b all
  where
    widen :
        (rs : List OutboxRow) (lo : ℕ)
        → x.id < lo
        → RowsBetween lo hi rs
        → All (OnlyRow rows) rs
        → All (OnlyRow (x ∷ rows)) rs
    widen [] lo h b all = tt
    widen (r ∷ rs) lo h b all =
        ((λ e. absurd (omega arith), all.0), widen rs (suc r.id) (omega arith) b.1 all.1)

pub only_rows :
    (lo hi : ℕ) (rows : List OutboxRow) → RowsBetween lo hi rows → All (OnlyRow rows) rows
only_rows lo hi [] b = tt
only_rows lo hi (r ∷ rs) b = (
  (λ e. refl, rows_above (suc r.id) hi rs r b.1 (omega arith)),
  rows_below r hi rs (suc r.id) (omega arith) b.1 (only_rows (suc r.id) hi rs b.1),
)

claimed_only :
    (d : Db) (hi : ℕ)
    → RowsBetween 0 hi d.outbox
    → (m : Meeting) (batch : ℕ)
    → All (OnlyRow d.outbox) (take batch (select (λ r. not (m.locked r)) d.outbox))
claimed_only d hi b m batch =
    All-take _ batch _ (All-select _ _ d.outbox (only_rows 0 hi d.outbox b))

module _ (P : OutboxRow → Type 0) where
  -- Deleting a row leaves every message that it does not carry.
  Any-without :
      (r : OutboxRow) (rows : List OutboxRow)
      → OnlyRow rows r
      → Any P rows
      → P r ⊎ Any P (without_row r.id rows)
  Any-without r [] only h = absurd h
  Any-without r (x ∷ xs) only (inl p) = elim (Bool-cases (x.id == r.id)) [
    | inl same ↦ inl (subst P (only.0 ((==_iff _ _).0 same)) p)
    | inr other ↦ inr (rw other (inl p))
  ]
  Any-without r (x ∷ xs) only (inr h) = elim (Any-without r xs only.1 h) [
    | inl p ↦ inl p
    | inr later ↦ elim (Bool-cases (x.id == r.id)) [
      | inl same ↦ inr (rw same later)
      | inr other ↦ inr (rw other (inr later))
    ]
  ]

  OnlyRow-without :
      (k : ℕ) (r : OutboxRow) (rows : List OutboxRow)
      → OnlyRow rows r
      → OnlyRow (without_row k rows) r
  OnlyRow-without k r rows = All-select _ _ rows

  -- The row is still in the outbox of the outcome, or it was published.
  abbrev Kept : Drain ℕ → Type 0
  Kept (err e, log) = Unit {0}
  Kept (ok (n, s), log) = Any P s.db.outbox ⊎ Any P log

  Kept-log :
      (r : OutboxRow) (o : List OutboxRow) (x : Drain ℕ)
      → P r ⊎ Any P o
      → (Any P o → Kept x)
      → Kept (log_first r x)
  Kept-log r o (err e, log) h f = tt
  Kept-log r o (ok (n, s), log) (inl p) f = inr (inl p)
  Kept-log r o (ok (n, s), log) (inr h) f = elim (f h) [ inl a ↦ inl a | inr b ↦ inr (inr b) ]

  All-without :
      (k : ℕ) (o rs : List OutboxRow) → All (OnlyRow o) rs → All (OnlyRow (without_row k o)) rs
  All-without k o [] all = tt
  All-without k o (r ∷ rs) all = (OnlyRow-without k r o all.0, All-without k o rs all.1)

  Kept-row :
      (r : OutboxRow) (o : List OutboxRow) (link : Option ℕ) (now : ℕ) (d : Db)
      (rest : Session → Drain ℕ)
      → P r ⊎ Any P o
      → ((link : Option ℕ) → Any P o → Kept (rest (session link now d)))
      → Kept (publish_row (send link now (ok (tt, d))) r rest)
  Kept-row r o none now d rest h f = Kept-log r o (rest (session none now d)) h (f none)
  Kept-row r o (some zero) now d rest h f = tt
  Kept-row r o (some (suc n)) now d rest h f =
      Kept-log r o (rest (session (some n) now d)) h (f (some n))

  publish_rows-Kept :
      (broker : Broker) (rs : List OutboxRow) (n : ℕ) (link : Option ℕ) (now : ℕ) (d : Db)
      → All (OnlyRow d.outbox) rs
      → Any P d.outbox
      → Kept (publish_rows broker rs n (session link now d))
  unfolding publish_rows
  publish_rows-Kept broker [] n link now d all h = inl h
  publish_rows-Kept broker (r ∷ rs) n link now d all h =
      let d' : Db = record d { outbox = without_row r.id d.outbox } in
      elim (Option-cases (broker r)) [
        | inr (e, refused) ↦ rw (refused, publish_rows) tt
        | inl taken ↦
            rw (taken, publish_rows)
              (Kept-row r d'.outbox link now d' (publish_rows broker rs (n + 1))
                (Any-without r d.outbox all.0 h)
                (λ link h'.
                  publish_rows-Kept broker rs (n + 1) link now d'
                    (All-without r.id d.outbox rs all.1) h'))
      ]

  -- After the loop the commit decides whether the deletions stand.
  Kept-commit : (x : Drain ℕ) → Kept x → Kept (commit_drain x)
  unfolding commit_drain
  Kept-commit (err e, log) h = tt
  Kept-commit (ok (n, s), log) h = commit_link s.link
    where
      commit_link : (link : Option ℕ) → Kept (commit_drain (ok (n, record s { link = link }), log))
      commit_link none = h
      commit_link (some zero) = tt
      commit_link (some (suc k)) = h

  Kept-claimed :
      (m : Meeting) (batch : ℕ) (link : Option ℕ) (d : Db) (hi : ℕ)
      → RowsBetween 0 hi d.outbox
      → Any P d.outbox
      → Kept (drain_claimed m.broker (claim_outbox_batch m.locked batch (session link m.now d)))
  unfolding drain_claimed claim_outbox_batch
  Kept-claimed m batch none d hi b h =
      Kept-commit _ (publish_rows-Kept m.broker _ 0 none m.now d (claimed_only d hi b m batch) h)
  Kept-claimed m batch (some zero) d hi b h = tt
  Kept-claimed m batch (some (suc n)) d hi b h =
      Kept-commit _
        (publish_rows-Kept m.broker _ 0 (some n) m.now d (claimed_only d hi b m batch) h)

  Kept-begun :
      (m : Meeting) (batch : ℕ) (link : Option ℕ) (d : Db) (hi : ℕ)
      → RowsBetween 0 hi d.outbox
      → Any P d.outbox
      → Kept (drain_begun m.broker m.locked batch (begin (session link m.now d)))
  unfolding drain_begun
  Kept-begun m batch none d hi b h = Kept-claimed m batch none d hi b h
  Kept-begun m batch (some zero) d hi b h = tt
  Kept-begun m batch (some (suc n)) d hi b h = Kept-claimed m batch (some n) d hi b h

  -- Left in the outbox, or published.
  abbrev pub Delivered : Db × List OutboxRow → Type 0
  Delivered (d, log) = Any P d.outbox ⊎ Any P log

  Delivered-finish :
      (d : Db) (x : Drain ℕ)
      → Any P d.outbox
      → Kept x
      → Delivered ((finish_drain d x).0.1, (finish_drain d x).1)
  Delivered-finish d (err e, log) h k = inl h
  Delivered-finish d (ok (n, s), log) h k = k

  -- Where the outbox rows are in the order of their ids, a message of the outbox (a row with any
  -- property) is still there after a drain, or the broker has it: wherever the
  -- connection or the broker fails, and whatever rows other relays hold.
  pub drain_batch-Delivered :
      (batch : ℕ) (m : Meeting) (d : Db)
      → RowsBetween 0 d.next_outbox d.outbox
      → Any P d.outbox
      → Delivered ((drain_batch batch m d).0.1, (drain_batch batch m d).1)
  unfolding drain_batch
  drain_batch-Delivered batch m d b h =
      Delivered-finish d _ h (Kept-begun m batch m.link d d.next_outbox b h)
