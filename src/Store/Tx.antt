-- ===== src/Store/Tx.antt =====
-- internal/store/store.go: transactions. A transaction is a chain of statements over a session,
-- each of which may find the connection gone; `WithinTx` commits, or leaves the tables as they were.
use sayari.Prelude.{ℕ, zero, suc, Option, none, some}
use sayari.Store.{Db}

-- `not_found` and `stale_write` are the domain's; `no_rows` is pgx.ErrNoRows; a violated key or
-- foreign key and a lost connection are errors of the database; `upstream` is any error of an
-- extractor or a classifier.
pub data Error : Type 0 where
  not_found stale_write no_rows duplicate_key foreign_key unavailable upstream : Error

pub data Result (A : Type 0) : Type 0 where
  ok : A → Result A
  err : Error → Result A

-- `link` counts the statements until the connection fails, `none` if it does not; `now` is the
-- transaction's `now()`.
pub record Session : Type 0 where
  pub link : Option ℕ
  pub now : ℕ
  pub db : Db

abbrev pub session : Option ℕ → ℕ → Db → Session
session link now db = record { link = link; now = now; db = db }

abbrev pub Tx : Type 0 → Type 0
Tx A = Session → Result (A × Session)

module _ {A : Type 0} where
  abbrev pub pure : A → Tx A
  pure a s = ok (a, s)

  abbrev pub raise : Error → Tx A
  raise e s = err e

  -- The session after a statement: the connection has `link` statements left.
  abbrev pub attach : Option ℕ → ℕ → Result (A × Db) → Result (A × Session)
  attach link now (ok (a, d)) = ok (a, session link now d)
  attach link now (err e) = err e

  abbrev pub send : Option ℕ → ℕ → Result (A × Db) → Result (A × Session)
  send none now r = attach none now r
  send (some zero) now r = err unavailable
  send (some (suc n)) now r = attach (some n) now r

  -- One SQL statement: `f` says what it does to the tables at the time `now()`.
  abbrev pub statement : (ℕ → Db → Result (A × Db)) → Tx A
  statement f s = send s.link s.now (f s.now s.db)

-- An INSERT, UPDATE or DELETE that returns no row.
abbrev pub exec : (ℕ → Db → Db) → Tx (Unit {0})
exec f = statement (λ now d. ok (tt, f now d))

module _ {A B : Type 0} where
  abbrev pub continue : Result (A × Session) → (A → Tx B) → Result (B × Session)
  continue (ok (a, s)) f = f a s
  continue (err e) f = err e

  infixl 5 ◌>>=◌ ◌>>◌
  abbrev pub ◌>>=◌ : Tx A → (A → Tx B) → Tx B
  ◌>>=◌ m f s = continue (m s) f

  abbrev pub ◌>>◌ : Tx A → Tx B → Tx B
  ◌>>◌ m k s = continue (m s) (λ _. k)

abbrev pub begin : Tx (Unit {0})
begin = exec (λ now d. d)

abbrev pub commit : Tx (Unit {0})
commit = exec (λ now d. d)

module _ {A : Type 0} where
  -- What is left when the transaction has ended: its tables, or those before it.
  abbrev pub finish : Db → Result (A × Session) → Result A × Db
  finish d (ok (a, s)) = (ok a, s.db)
  finish d (err e) = (err e, d)

  abbrev pub committed : Tx A → Tx A
  committed fn = do begin; a ← fn; commit; pure a

  -- `Store.WithinTx`.
  unfoldable pub within_tx : Option ℕ → ℕ → Tx A → Db → Result A × Db
  within_tx link now fn d = finish d (committed fn (session link now d))
