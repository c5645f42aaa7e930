-- ===== src/Bootstrap/Commands.antt =====
-- cmd/api/main.go, cmd/classifier/main.go, cmd/extractor/main.go: the exit code of a process and what
-- it opened and closed. What the environment, Postgres and Redis answer is a parameter, and so is
-- what the server or the worker returns. `os.Exit` runs no deferred call.
use sayari.Prelude.{
  ℕ, Bool, true, false, Option, List, [], ◌∷◌, ◌++◌, Text, ℤ, is_positive, if◌then◌else◌,
}
use sayari.Config.{Config, Loading, loaded, failed, load}
use sayari.Bootstrap.{
  Action, close_pool, close_broker, Started, ready, Chosen, new_store, new_broker, new_classifier,
}
use sayari.Bootstrap.Migrations.{Schema}

-- What attempt `i` of each dependency meets.
pub record Surroundings : Type 0 where
  pub connects : ℕ → Bool
  pub pings : ℕ → Bool
  pub store_done : ℕ → Bool
  pub schema : Schema
  pub redis_pings : ℕ → Bool
  pub broker_done : ℕ → Bool

-- `ListenAndServe` returns nil, `http.ErrServerClosed` or another error.
pub data Served : Type 0 where
  no_error server_closed broken : Served

-- How the work of a process ends: the last call of `main` succeeds or fails, or a goroutine panics.
pub data Ending : Type 0 where
  succeeds fails panics : Ending

unfoldable pub serves : Served → Ending
serves Served.no_error = succeeds
serves Served.server_closed = succeeds
serves Served.broken = fails

unfoldable pub returns_nil : Bool → Ending
returns_nil true = succeeds
returns_nil false = fails

-- `go relay.Run`: `NewTicker` panics if the interval is not positive. `overtakes`: is that before
-- the last call of `main` has returned?
unfoldable pub beside_relay : Config → Bool → Ending → Ending
beside_relay c overtakes e =
    if is_positive c.outbox_poll_interval then e else if overtakes then panics else e

-- The end: the deferred calls, the latest first, or `os.Exit(1)`; a panic of another goroutine ends
-- the process with 2, and runs no deferred call of `main`.
unfoldable pub exit_with : Ending → List Action → ℕ × List Action
exit_with succeeds log = (0, log ++ close_broker ∷ close_pool ∷ [])
exit_with fails log = (1, log)
exit_with panics log = (2, log)

unfoldable pub after_broker :
    Ending → List Action → Started (Unit {0}) × List Action → ℕ × List Action
unfolding exit_with
after_broker end log (Started.failed e, more) = (1, log ++ more)
after_broker end log (ready _, more) = exit_with end (log ++ more)

unfoldable pub after_store :
    Surroundings → Ending → Started (Unit {0}) × List Action → ℕ × List Action
after_store env end (Started.failed e, log) = (1, log)
after_store env end (ready _, log) =
    after_broker end log (new_broker env.redis_pings env.broker_done)

-- What the three `main` functions share.
unfoldable pub command : Surroundings → (Config → Ending) → Loading → ℕ × List Action
command env work (failed e) = (1, [])
command env work (loaded c) =
    after_store env (work c) (new_store env.connects env.pings env.store_done env.schema)

module _ (lookup : Text → Option Text) (parse_duration : Text → Option ℤ) (env : Surroundings) where
  -- `main` of cmd/api: it runs the relay beside, and listens at an address.
  unfoldable pub api_main : Bool → (Text → Served) → ℕ × List Action
  unfolding beside_relay serves
  api_main overtakes listen =
      command env (λ c. beside_relay c overtakes (serves (listen c.http_addr)))
        (load lookup parse_duration)

  -- `main` of cmd/classifier: does the worker's `Run` return nil?
  unfoldable pub classifier_main : (Chosen → ℤ → Bool) → ℕ × List Action
  unfolding returns_nil
  classifier_main run =
      command env (λ c. returns_nil (run (new_classifier c) c.worker_concurrency))
        (load lookup parse_duration)

  -- `main` of cmd/extractor.
  unfoldable pub extractor_main : (ℤ → Bool) → ℕ × List Action
  unfolding returns_nil
  extractor_main run =
      command env (λ c. returns_nil (run c.worker_concurrency)) (load lookup parse_duration)
