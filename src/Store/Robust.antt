-- ===== src/Store/Robust.antt =====
-- internal/store/store.go: a transaction over a failing connection, beside the same transaction
-- over a connection that holds.
use sayari.Prelude.{
  ℕ, zero, suc, ◌≡◌, refl, ◌⊎◌, inl, inr, Bool, true, false, Option, none, some, if◌then◌else◌,
}
use sayari.Store.{Db}
use sayari.Store.Tx.{
  Error, unavailable, Result, ok, err, Session, session, Tx, pure, raise, statement, send, exec,
  continue, ◌>>=◌, ◌>>◌, begin, commit, committed, finish, within_tx,
}

-- `r` is the outcome over any connection, `r0` the one over a connection that holds.
pub data Agree {A : Type 0} (now : ℕ) (r r0 : Result (A × Session)) : Type 0 where
  cut : r ≡ err unavailable → Agree now r r0
  fails : (e : Error) → r ≡ err e → r0 ≡ err e → Agree now r r0
  done :
      (a : A) (link : Option ℕ) (d : Db)
      → r ≡ ok (a, session link now d)
      → r0 ≡ ok (a, session none now d)
      → Agree now r r0

pub record Robust {A : Type 0} (m : Tx A) : Type 0 where
  pub at :
      (link : Option ℕ) (now : ℕ) (d : Db)
      → Agree now (m (session link now d)) (m (session none now d))

module _ {A : Type 0} where
  pub Robust-pure : (a : A) → Robust (pure a)
  Robust-pure a = record { at = λ link now d. done a link d refl refl }

  pub Robust-raise : (e : Error) → Robust (raise {A = A} e)
  Robust-raise e = record { at = λ link now d. fails e refl refl }

  Agree-send :
      (link : Option ℕ) (now : ℕ) (r : Result (A × Db))
      → Agree now (send link now r) (send none now r)
  Agree-send none now (ok (a, d)) = done a none d refl refl
  Agree-send none now (err e) = fails e refl refl
  Agree-send (some zero) now r = cut refl
  Agree-send (some (suc n)) now (ok (a, d)) = done a (some n) d refl refl
  Agree-send (some (suc n)) now (err e) = fails e refl refl

  pub Robust-statement : (f : ℕ → Db → Result (A × Db)) → Robust (statement f)
  Robust-statement f = record { at = λ link now d. Agree-send link now (f now d) }

  pub Robust-if : (b : Bool) (m n : Tx A) → Robust m → Robust n → Robust (if b then m else n)
  Robust-if true m n km kn = km
  Robust-if false m n km kn = kn

pub Robust-exec : (f : ℕ → Db → Db) → Robust (exec f)
Robust-exec f = Robust-statement (λ now d. ok (tt, f now d))

module _ {A B : Type 0} where
  Agree-continue :
      (now : ℕ) (r r0 : Result (A × Session)) (f : A → Tx B)
      → ((a : A) → Robust (f a))
      → Agree now r r0
      → Agree now (continue r f) (continue r0 f)
  Agree-continue now r r0 f kf (cut e) = rw e (cut refl)
  Agree-continue now r r0 f kf (fails e p q) = rw (p, q) (fails e refl refl)
  Agree-continue now r r0 f kf (done a link d p q) = rw (p, q) ((kf a).at link now d)

  pub Robust-bind :
      (m : Tx A) (f : A → Tx B) → Robust m → ((a : A) → Robust (f a)) → Robust (m >>= f)
  Robust-bind m f km kf = record {
    at = λ link now d. Agree-continue now _ _ f kf (km.at link now d);
  }

  pub Robust-then : (m : Tx A) (k : Tx B) → Robust m → Robust k → Robust (m >> k)
  Robust-then m k km kk = record {
    at = λ link now d. Agree-continue now _ _ (λ _. k) (λ _. kk) (km.at link now d);
  }

pub ruleset robust_rules =
    (Robust-pure, Robust-raise, Robust-statement, Robust-exec, Robust-if, Robust-bind, Robust-then)

module _ {A : Type 0} where
  Robust-committed : (fn : Tx A) → Robust fn → Robust (committed fn)
  Robust-committed fn k =
      Robust-then begin (fn >>= λ a. commit >> pure a) (Robust-exec _)
        (Robust-bind fn _ k (λ a. Robust-then commit (pure a) (Robust-exec _) (Robust-pure a)))

  abbrev pub Outcome : Db → Result A × Db → Result A × Db → Type 0
  Outcome d r r0 = (r ≡ (err unavailable, d)) ⊎ (r ≡ r0)

  Outcome-finish :
      (now : ℕ) (d : Db) (r r0 : Result (A × Session))
      → Agree now r r0
      → Outcome d (finish d r) (finish d r0)
  Outcome-finish now d r r0 (cut e) = inl (rw e)
  Outcome-finish now d r r0 (fails e p q) = inr (rw (p, q))
  Outcome-finish now d r r0 (done a link d' p q) = inr (rw (p, q))

  -- Whenever the connection fails, the tables are untouched and the caller sees the failure; else
  -- the outcome is that of a connection that holds.
  pub within_tx-atomic :
      (link : Option ℕ) (now : ℕ) (fn : Tx A) (d : Db)
      → Robust fn
      → Outcome d (within_tx link now fn d) (within_tx none now fn d)
  unfolding within_tx
  within_tx-atomic link now fn d k =
      Outcome-finish now d _ _ ((Robust-committed fn k).at link now d)

  -- What the start and the undisturbed end satisfy, every end satisfies.
  pub Outcome-keeps :
      (P : Db → Type 0) (d : Db) (r r0 : Result A × Db) → Outcome d r r0 → P d → P r0.1 → P r.1
  Outcome-keeps P d r r0 (inl e) start end = rw e start
  Outcome-keeps P d r r0 (inr e) start end = rw e end
