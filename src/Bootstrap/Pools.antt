-- ===== src/Bootstrap/Pools.antt =====
-- internal/app/app.go: the ends of `NewStore`, and what each leaves open.
use sayari.Prelude.{
  ℕ, zero, suc, ◌+◌, ◌-◌, ◌≤◌, ◌<◌, ◌≡◌, refl, ap, ◌∙◌, subst, Bool, true, false, ◌&&◌, Option,
  none, some, List, [], ◌∷◌, ◌++◌, inl, inr, Bool-cases, arith, ◌==◌, ==_iff,
}
use sayari.Bootstrap.{
  Action, open_pool, close_pool, Attempt, success, failure, Started, ready, failed, not_ready,
  cancelled, migrate_failed, retry_from, retry, store_new, migrated, new_store,
}
use sayari.Bootstrap.Migrations.{MigrationError, Schema, migrate}

-- The pools that are open after some actions.
abbrev pub open_pools : ℕ → List Action → ℕ
open_pools n [] = n
open_pools n (Action.open_pool ∷ log) = open_pools (suc n) log
open_pools n (Action.close_pool ∷ log) = open_pools (n - 1) log
open_pools n (Action.open_broker ∷ log) = open_pools n log
open_pools n (Action.close_broker ∷ log) = open_pools n log

pub open_pools-append :
    (n : ℕ) (xs ys : List Action) → open_pools n (xs ++ ys) ≡ open_pools (open_pools n xs) ys
open_pools-append n [] ys = refl
open_pools-append n (Action.open_pool ∷ xs) ys = open_pools-append (suc n) xs ys
open_pools-append n (Action.close_pool ∷ xs) ys = open_pools-append (n - 1) xs ys
open_pools-append n (Action.open_broker ∷ xs) ys = open_pools-append n xs ys
open_pools-append n (Action.close_broker ∷ xs) ys = open_pools-append n xs ys

store_new-up :
    (connects pings : Bool)
    → (connects && pings) ≡ true
    → store_new connects pings ≡ (success tt, open_pool ∷ [])
unfolding store_new
store_new-up true true h = refl
store_new-up true false h = cc
store_new-up false p h = cc

-- A failing `store.New` leaves the pools as they were.
store_new-down :
    (connects pings : Bool)
    → (connects && pings) ≡ false
    → (log : List Action) × ((store_new connects pings ≡ (failure, log))
        × ((n : ℕ) → open_pools n log ≡ n))
unfolding store_new
store_new-down true true h = cc
store_new-down true false h = (open_pool ∷ close_pool ∷ [], (refl, λ n. omega arith))
store_new-down false p h = ([], (refl, λ n. refl))

module _ (connects pings done : ℕ → Bool) (db : Schema) where
  -- Each attempt from `a` on and before `b` failed, and the context was not done in the wait after it.
  abbrev pub AllWait : ℕ → ℕ → Type 0
  AllWait a b = (j : ℕ) → a ≤ j → j < b → ((connects j && pings j) ≡ false) × (done j ≡ false)

  -- How the attempts from `a` on and before `b` end, and the pools that are then open.
  pub data Connected (a b n : ℕ) (r : Started (Unit {0})) (pools : ℕ) : Type 0 where
    up :
        (k : ℕ)
        → a ≤ k
        → k < b
        → AllWait a k
        → (connects k && pings k) ≡ true
        → r ≡ ready tt
        → pools ≡ suc n
        → Connected a b n r pools
    interrupted :
        (k : ℕ)
        → a ≤ k
        → k < b
        → AllWait a k
        → (connects k && pings k) ≡ false
        → done k ≡ true
        → r ≡ failed cancelled
        → pools ≡ n
        → Connected a b n r pools
    given_up : AllWait a b → r ≡ failed (not_ready 10) → pools ≡ n → Connected a b n r pools

  AllWait-before :
      (a b : ℕ) → (connects a && pings a) ≡ false → done a ≡ false → AllWait (suc a) b → AllWait a b
  AllWait-before a b h w rest j lo hi = elim (Bool-cases (a == j)) [
    | inl same ↦
        subst (λ x. ((connects x && pings x) ≡ false) × (done x ≡ false)) ((==_iff a j).0 same)
          (h, w)
    | inr other ↦ rest j (ground (arith, other)) hi
  ]

  AllWait-none : (a : ℕ) → AllWait a a
  AllWait-none a j lo hi = absurd (omega (arith, lo, hi))

  abbrev attempt : ℕ → Attempt (Unit {0}) × List Action
  attempt i = store_new (connects i) (pings i)

  Connected-before :
      (a b n m : ℕ) (r : Started (Unit {0}))
      → (connects a && pings a) ≡ false
      → done a ≡ false
      → Connected (suc a) b n r m
      → Connected a b n r m
  Connected-before a b n m r h w (Connected.up k lo hi all c e o) =
      Connected.up k (omega (arith, lo)) hi (AllWait-before a k h w all) c e o
  Connected-before a b n m r h w (Connected.interrupted k lo hi all c d e o) =
      Connected.interrupted k (omega (arith, lo)) hi (AllWait-before a k h w all) c d e o
  Connected-before a b n m r h w (Connected.given_up all e o) =
      Connected.given_up (AllWait-before a b h w all) e o

  -- After a failing attempt.
  Connected-after :
      (i left n : ℕ) (log : List Action) (rest : Started (Unit {0}) × List Action)
      → (connects i && pings i) ≡ false
      → done i ≡ false
      → open_pools n log ≡ n
      → Connected (suc i) (suc i + left) n rest.0 (open_pools n rest.1)
      → Connected i (i + suc left) n rest.0 (open_pools n (log ++ rest.1))
  Connected-after i left n log rest unready goes_on same ends =
      let pools : open_pools n (log ++ rest.1) ≡ open_pools n rest.1 =
        open_pools-append n log rest.1 ∙ ap (λ m. open_pools m rest.1) same in
      let bound : suc i + left ≡ i + suc left = omega arith in
      rw pools (
        subst (λ b. Connected i b n rest.0 (open_pools n rest.1)) bound
          (Connected-before i (suc i + left) n _ rest.0 unready goes_on ends))

  retry_from-Connected :
      (left i n : ℕ)
      → Connected i
          (i + left)
          n
          (retry_from attempt done 10 left i).0
          (open_pools n (retry_from attempt done 10 left i).1)
  unfolding retry_from
  retry_from-Connected zero i n =
      Connected.given_up (λ j lo hi. absurd (omega (arith, lo, hi))) refl refl
  retry_from-Connected (suc left) i n = elim (Bool-cases (connects i && pings i)) [
    | inl answered ↦
        rw (store_new-up (connects i) (pings i) answered)
          (Connected.up i (omega arith) (omega arith) (AllWait-none i) answered refl refl)
    | inr unready ↦
        let (log, h) = store_new-down (connects i) (pings i) unready in
        elim (Bool-cases (done i)) [
          | inl over ↦
              rw (h.0, over)
                (Connected.interrupted i (omega arith) (omega arith) (AllWait-none i) unready over
                  refl (h.1 n))
          | inr goes_on ↦
              rw (h.0, goes_on)
                (Connected-after i left n log _ unready goes_on (h.1 n)
                  (retry_from-Connected left (suc i) n))
        ]
  ]

  -- How `NewStore` ends, and the pools that it leaves open.
  pub data StoreEnd (r : Started (Unit {0})) (pools : ℕ) : Type 0 where
    serving :
        (k : ℕ)
        → k < 10
        → AllWait 0 k
        → (connects k && pings k) ≡ true
        → (migrate db).0 ≡ none
        → r ≡ ready tt
        → pools ≡ 1
        → StoreEnd r pools
    unmigrated :
        (k : ℕ) (e : MigrationError)
        → k < 10
        → AllWait 0 k
        → (connects k && pings k) ≡ true
        → (migrate db).0 ≡ some e
        → r ≡ failed (migrate_failed e)
        → pools ≡ 1
        → StoreEnd r pools
    stopped :
        (k : ℕ)
        → k < 10
        → AllWait 0 k
        → (connects k && pings k) ≡ false
        → done k ≡ true
        → r ≡ failed cancelled
        → pools ≡ 0
        → StoreEnd r pools
    tired : AllWait 0 10 → r ≡ failed (not_ready 10) → pools ≡ 0 → StoreEnd r pools

  migrated-StoreEnd :
      (r : Started (Unit {0}) × List Action)
      → Connected 0 10 0 r.0 (open_pools 0 r.1)
      → (m : Option MigrationError) → (migrate db).0 ≡ m
      → StoreEnd (migrated m r).0 (open_pools 0 (migrated m r).1)
  migrated-StoreEnd (ready tt, log) (Connected.up k lo hi all c e o) none eq =
      StoreEnd.serving k hi all c eq refl o
  migrated-StoreEnd (ready tt, log) (Connected.up k lo hi all c e o) (some x) eq =
      StoreEnd.unmigrated k x hi all c eq refl o
  migrated-StoreEnd (failed x, log) (Connected.up k lo hi all c e o) m eq =
      absurd (ground (arith, e))
  migrated-StoreEnd (ready tt, log) (Connected.interrupted k lo hi all c d e o) m eq =
      absurd (ground (arith, e))
  migrated-StoreEnd (failed x, log) (Connected.interrupted k lo hi all c d e o) none eq =
      StoreEnd.stopped k hi all c d e o
  migrated-StoreEnd (failed x, log) (Connected.interrupted k lo hi all c d e o) (some y) eq =
      StoreEnd.stopped k hi all c d e o
  migrated-StoreEnd (ready tt, log) (Connected.given_up all e o) m eq = absurd (ground (arith, e))
  migrated-StoreEnd (failed x, log) (Connected.given_up all e o) none eq = StoreEnd.tired all e o
  migrated-StoreEnd (failed x, log) (Connected.given_up all e o) (some y) eq =
      StoreEnd.tired all e o

  -- `NewStore` makes at most ten attempts, and ends in one of four ways. An attempt connects and pings,
  -- all before it failed and no wait was cut: then the migrations decide, and exactly one pool is open
  -- on both their ends, so a migration that fails leaves the pool open. Or the context is done in the
  -- wait after an attempt, the last one's included, or all ten attempts fail: then no pool is open.
  pub new_store-StoreEnd :
      StoreEnd
        (new_store connects pings done db).0
        (open_pools 0 (new_store connects pings done db).1)
  unfolding new_store retry
  new_store-StoreEnd =
      migrated-StoreEnd (retry_from attempt done 10 10 0) (retry_from-Connected 10 0 0)
        (migrate db).0 refl
