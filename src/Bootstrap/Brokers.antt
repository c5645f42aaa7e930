-- ===== src/Bootstrap/Brokers.antt =====
-- internal/app/app.go: what the attempts of `NewBroker` and `NewStore` leave open.
use sayari.Prelude.{
  ℕ, zero, suc, ◌-◌, ◌≡◌, refl, ap, Bool, Option, none, some, List, [], ◌∷◌, ◌++◌, inl, inr,
  Bool-cases, arith, if◌then◌else◌,
}
use sayari.Bootstrap.{
  Action, open_broker, success, failure, Started, ready, retry, retry_from, new_store, store_new,
  new_broker, migrated,
}
use sayari.Bootstrap.Migrations.{MigrationError, Schema, migrate}
use sayari.Bootstrap.Pools.{open_pools, StoreEnd, new_store-StoreEnd}

-- The broker's clients that are open after some actions.
abbrev pub open_brokers : ℕ → List Action → ℕ
open_brokers n [] = n
open_brokers n (Action.open_pool ∷ log) = open_brokers n log
open_brokers n (Action.close_pool ∷ log) = open_brokers n log
open_brokers n (Action.open_broker ∷ log) = open_brokers (suc n) log
open_brokers n (Action.close_broker ∷ log) = open_brokers (n - 1) log

pub open_brokers-append :
    (n : ℕ) (xs ys : List Action) → open_brokers n (xs ++ ys) ≡ open_brokers (open_brokers n xs) ys
open_brokers-append n [] ys = refl
open_brokers-append n (Action.open_pool ∷ xs) ys = open_brokers-append n xs ys
open_brokers-append n (Action.close_pool ∷ xs) ys = open_brokers-append n xs ys
open_brokers-append n (Action.open_broker ∷ xs) ys = open_brokers-append (suc n) xs ys
open_brokers-append n (Action.close_broker ∷ xs) ys = open_brokers-append (n - 1) xs ys

abbrev pub IsReady : Started (Unit {0}) × List Action → Type 0
IsReady r = r.0 ≡ ready tt

-- Retrying the ping does nothing to the client.
pings-log :
    (pings done : ℕ → Bool) (attempts left i : ℕ)
    → (retry_from (λ j. if pings j then (success tt, []) else (failure, [])) done attempts left i).1
      ≡ []
unfolding retry_from
pings-log pings done attempts zero i = refl
pings-log pings done attempts (suc left) i = elim (Bool-cases (pings i)) [
  | inl up ↦ rw up refl
  | inr down ↦ elim (Bool-cases (done i)) [
    | inl over ↦ rw (down, over) refl
    | inr goes_on ↦ rw (down, goes_on) (pings-log pings done attempts left (suc i))
  ]
]

pub new_broker-log : (pings done : ℕ → Bool) → (new_broker pings done).1 ≡ open_broker ∷ []
unfolding new_broker retry
new_broker-log pings done = ap (λ log. open_broker ∷ log) (pings-log pings done 10 10 0)

-- No attempt at Postgres touches the broker.
store-brokers :
    (connects pings done : ℕ → Bool) (attempts left i : ℕ)
    → open_brokers 0 (retry_from (λ j. store_new (connects j) (pings j)) done attempts left i).1 ≡ 0
unfolding retry_from store_new
store-brokers connects pings done attempts zero i = refl
store-brokers connects pings done attempts (suc left) i =
    let rest = store-brokers connects pings done attempts left (suc i) in
    elim (Bool-cases (connects i)) [
      | inl connected ↦ elim (Bool-cases (pings i)) [
        | inl up ↦ rw (connected, up) refl
        | inr down ↦ elim (Bool-cases (done i)) [
          | inl over ↦ rw (connected, down, over) refl
          | inr goes_on ↦ rw (connected, down, goes_on) rest
        ]
      ]
      | inr refused ↦ elim (Bool-cases (done i)) [
        | inl over ↦ rw (refused, over) refl
        | inr goes_on ↦ rw (refused, goes_on) rest
      ]
    ]

migrated-log :
    (m : Option MigrationError) (r : Started (Unit {0}) × List Action) → (migrated m r).1 ≡ r.1
migrated-log none (ready tt, log) = refl
migrated-log none (Started.failed e, log) = refl
migrated-log (some e) (ready tt, log) = refl
migrated-log (some e) (Started.failed x, log) = refl

-- A store that is ready: one pool is open, and no client of the broker.
pub ready-pools :
    (connects pings done : ℕ → Bool) (db : Schema)
    → IsReady (new_store connects pings done db)
    → open_pools 0 (new_store connects pings done db).1 ≡ 1
ready-pools connects pings done db h =
    by_end (new_store connects pings done db) h (new_store-StoreEnd connects pings done db)
  where
    by_end :
        (r : Started (Unit {0}) × List Action)
        → IsReady r
        → StoreEnd connects pings done db r.0 (open_pools 0 r.1)
        → open_pools 0 r.1 ≡ 1
    by_end r h (StoreEnd.serving k hi all c m e o) = o
    by_end r h (StoreEnd.unmigrated k x hi all c m e o) = o
    by_end r h (StoreEnd.stopped k hi all c d e o) = absurd (ground (arith, h, e))
    by_end r h (StoreEnd.tired all e o) = absurd (ground (arith, h, e))

pub ready-brokers :
    (connects pings done : ℕ → Bool) (db : Schema)
    → open_brokers 0 (new_store connects pings done db).1 ≡ 0
unfolding new_store retry
ready-brokers connects pings done db =
    rw
      (migrated-log (migrate db).0
        (retry_from (λ j. store_new (connects j) (pings j)) done 10 10 0))
      (store-brokers connects pings done 10 10 0)
