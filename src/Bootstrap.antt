-- ===== src/Bootstrap.antt =====
-- internal/app/app.go and cmd: how the processes start and stop. What Postgres and Redis answer is a
-- parameter; what is opened and closed is logged.
pub mod Migrations
pub mod Applied
pub mod Commands
pub mod Pools
pub mod Brokers
pub mod Exits
use sayari.Prelude.{
  ℕ, zero, suc, ◌+◌, Bool, true, false, Option, none, some, List, [], ◌∷◌, ◌++◌, Text, codes,
  text_eq, if◌then◌else◌, ℤ,
}
use sayari.Config.{Config}
use sayari.Bootstrap.Migrations.{MigrationError, Schema, migrate}

-- Why a dependency is not there.
pub data StartError : Type 0 where
  not_ready : ℕ → StartError
  cancelled : StartError
  migrate_failed : MigrationError → StartError

pub data Started (A : Type 0) : Type 0 where
  ready : A → Started A
  failed : StartError → Started A

-- What is done to the pools of connections, and to the broker's client.
pub data Action : Type 0 where
  open_pool close_pool open_broker close_broker : Action

pub data Attempt (A : Type 0) : Type 0 where
  success : A → Attempt A
  failure : Attempt A

module _ {A : Type 0} (fn : ℕ → Attempt A × List Action) (done : ℕ → Bool) (attempts : ℕ) where
  abbrev pub logged : List Action → Started A × List Action → Started A × List Action
  logged log (r, more) = (r, log ++ more)

  -- After attempt `i`: the context may be done in the wait that follows every failure.
  unfoldable pub after_attempt :
      ℕ → Attempt A × List Action → Started A × List Action → Started A × List Action
  after_attempt i (success a, log) rest = (ready a, log)
  after_attempt i (failure, log) rest = if done i then (failed cancelled, log) else logged log rest

  -- The loop from attempt `i` on, with `left` attempts to go.
  unfoldable pub retry_from : ℕ → ℕ → Started A × List Action
  unfolding after_attempt
  retry_from zero i = (failed (not_ready attempts), [])
  retry_from (suc left) i = let rest = retry_from left (suc i) in after_attempt i (fn i) rest

  -- `retry`.
  unfoldable pub retry : Started A × List Action
  unfolding retry_from
  retry = retry_from attempts 0

-- `store.New`: pgxpool.New, then a ping; `none` is success.
unfoldable pub store_new : Bool → Bool → Attempt (Unit {0}) × List Action
store_new connects pings =
    if connects
    then (if pings then (success tt, open_pool ∷ []) else (failure, open_pool ∷ close_pool ∷ []))
    else (failure, [])

abbrev migrated :
    Option MigrationError → Started (Unit {0}) × List Action → Started (Unit {0}) × List Action
migrated migration (failed e, log) = (failed e, log)
migrated none (ready _, log) = (ready tt, log)
migrated (some e) (ready _, log) = (failed (migrate_failed e), log)

-- `NewStore`: attempt `i` connects and pings, and then the migrations run.
unfoldable pub new_store :
    (ℕ → Bool) → (ℕ → Bool) → (ℕ → Bool) → Schema → Started (Unit {0}) × List Action
unfolding retry store_new
new_store connects pings done db =
    migrated (migrate db).0 (retry (λ i. store_new (connects i) (pings i)) done 10)

-- `NewBroker`: the client is made first, and the retries ping it.
unfoldable pub new_broker : (ℕ → Bool) → (ℕ → Bool) → Started (Unit {0}) × List Action
unfolding retry
new_broker pings done =
    let (r, log) = retry (λ i. if pings i then (success tt, []) else (failure, [])) done 10 in
    (r, open_broker ∷ log)

-- The classifier that a configuration asks for: its base URL, key and model, or the mock's delay.
pub data Chosen : Type 0 where
  ollama : Text → Text → Text → Chosen
  mock : ℤ → Chosen

-- `NewClassifier`.
unfoldable pub new_classifier : Config → Chosen
new_classifier c =
    if text_eq c.llm_provider (codes "ollama")
    then ollama c.ollama_base_url c.ollama_api_key c.ollama_model
    else mock c.mock_classify_delay
