-- ===== src/Bootstrap/Exits.antt =====
-- cmd/api/main.go, cmd/classifier/main.go and cmd/extractor/main.go: the exit code, and what is left open.
use sayari.Prelude.{ℕ, ◌≡◌, refl, Bool, Option, List, [], ◌∷◌, ◌++◌, Text, ℤ, arith}
use sayari.Config.{Config, Loading, read_config}
use sayari.Config.Loaded.{IsAccepted, LoadEnd, load-LoadEnd}
use sayari.Bootstrap.{
  Action, close_pool, open_broker, close_broker, Started, ready, Chosen, new_store, new_broker,
  new_classifier,
}
use sayari.Bootstrap.Pools.{open_pools, open_pools-append}
use sayari.Bootstrap.Commands.{
  Surroundings, Served, Ending, succeeds, fails, panics, serves, returns_nil, beside_relay,
  exit_with, after_broker, after_store, command, api_main, classifier_main, extractor_main,
}
use sayari.Bootstrap.Brokers.{
  open_brokers, open_brokers-append, IsReady, new_broker-log, ready-pools, ready-brokers,
}

-- The exit code, and the pools and the clients of the broker that are open then.
abbrev pub Leaves : ℕ × List Action → ℕ → ℕ → ℕ → Type 0
Leaves r code pools brokers =
    (r.0 ≡ code) × ((open_pools 0 r.1 ≡ pools) × (open_brokers 0 r.1 ≡ brokers))

module _ (env : Surroundings) where
  abbrev pub store : Started (Unit {0}) × List Action
  store = new_store env.connects env.pings env.store_done env.schema

  abbrev pub broker : Started (Unit {0}) × List Action
  broker = new_broker env.redis_pings env.broker_done

  -- How a process ends whose configuration is accepted, when its work ends so.
  pub data RunExit (end : Ending) (r : ℕ × List Action) : Type 0 where
    no_store : (IsReady store → ⊥) → Leaves r 1 (open_pools 0 store.1) 0 → RunExit end r
    no_broker : IsReady store → (IsReady broker → ⊥) → Leaves r 1 1 1 → RunExit end r
    done : IsReady store → IsReady broker → end ≡ succeeds → Leaves r 0 0 0 → RunExit end r
    failed : IsReady store → IsReady broker → end ≡ fails → Leaves r 1 1 1 → RunExit end r
    crashed : IsReady store → IsReady broker → end ≡ panics → Leaves r 2 1 1 → RunExit end r

  -- How a process ends that has read the configuration `c`.
  pub data Exits (c : Config) (end : Ending) (r : ℕ × List Action) : Type 0 where
    refused : (IsAccepted c → ⊥) → Leaves r 1 0 0 → Exits c end r
    ran : IsAccepted c → RunExit end r → Exits c end r

  exit_with-RunExit :
      (end : Ending) (log : List Action)
      → IsReady store
      → IsReady broker
      → open_pools 0 log ≡ 1
      → open_brokers 0 log ≡ 1
      → RunExit end (exit_with end log)
  unfolding exit_with
  exit_with-RunExit succeeds log s b p q = done s b refl (
    refl,
    (
      rw (open_pools-append 0 log (close_broker ∷ close_pool ∷ []), p) (omega arith),
      rw (open_brokers-append 0 log (close_broker ∷ close_pool ∷ []), q) (omega arith),
    ),
  )
  exit_with-RunExit fails log s b p q = failed s b refl (refl, (p, q))
  exit_with-RunExit panics log s b p q = crashed s b refl (refl, (p, q))

  after_broker-RunExit :
      (end : Ending) (log : List Action) (r : Started (Unit {0}) × List Action)
      → broker ≡ r
      → IsReady store
      → open_pools 0 log ≡ 1
      → open_brokers 0 log ≡ 0
      → r.1 ≡ open_broker ∷ []
      → RunExit end (after_broker end log r)
  unfolding after_broker
  after_broker-RunExit end log (x, more) same s p q m = by_start x same
    where
      pools : open_pools 0 (log ++ more) ≡ 1
      pools = rw (open_pools-append 0 log more, p, m) refl

      brokers : open_brokers 0 (log ++ more) ≡ 1
      brokers = rw (open_brokers-append 0 log more, q, m) refl

      by_start :
          (y : Started (Unit {0}))
          → broker ≡ (y, more)
          → RunExit end (after_broker end log (y, more))
      by_start (Started.failed e) same' =
          no_broker s (λ h. absurd (ground (arith, h, same'))) (refl, (pools, brokers))
      by_start (ready tt) same' =
          exit_with-RunExit end (log ++ more) s (rw same' refl) pools brokers

  after_store-RunExit :
      (end : Ending) (r : Started (Unit {0}) × List Action)
      → store ≡ r
      → (IsReady r → open_pools 0 r.1 ≡ 1)
      → open_brokers 0 r.1 ≡ 0
      → RunExit end (after_store env end r)
  unfolding after_store
  after_store-RunExit end (Started.failed e, log) same p q =
      no_store (λ h. absurd (ground (arith, h, same))) (refl, (rw same refl, q))
  after_store-RunExit end (ready tt, log) same p q =
      after_broker-RunExit end log broker refl (rw same refl) (p refl) q
        (new_broker-log env.redis_pings env.broker_done)

  command-Exits :
      (work : Config → Ending) (c : Config) (r : Loading)
      → LoadEnd c r
      → Exits c (work c) (command env work r)
  unfolding command
  command-Exits work c r (LoadEnd.accepts u e) = rw e (
      ran u (
        after_store-RunExit (work c) store refl
          (ready-pools env.connects env.pings env.store_done env.schema)
          (ready-brokers env.connects env.pings env.store_done env.schema)))
  command-Exits work c r (LoadEnd.without_key p k e) =
      rw e (refused (λ u. u.1 p k) (refl, (refl, refl)))
  command-Exits work c r (LoadEnd.too_few k few e) =
      rw e (refused (λ u. absurd (ground (arith, u.0, few))) (refl, (refl, refl)))

-- The three commands end by the same rule, whatever the environment, Postgres and Redis answer.
-- If `Load` refuses the configuration, the exit code is 1 and nothing was opened. Else, if the store
-- did not come up, it is 1 and what `NewStore` left open is open; if the broker did not, it is 1 and
-- the pool and the client of the broker are left open. Else the work decides: it succeeds, the code
-- is 0 and both are closed; it fails, the code is 1 and both are left open; or the relay panics, the
-- code is 2 and both are left open. The work is `ListenAndServe`, which succeeds by nil or
-- ErrServerClosed, beside the relay, which panics if its interval is not positive; or the worker's
-- `Run`, for the concurrency that the configuration gives and, in the classifier, the model that it
-- chooses.
pub mains-Exits :
    (env : Surroundings) (lookup : Text → Option Text) (parse_duration : Text → Option ℤ)
    (overtakes : Bool) (listen : Text → Served) (classify_with : Chosen → ℤ → Bool)
    (extract_with : ℤ → Bool)
    → let c = read_config lookup parse_duration in
      Exits env c
        (beside_relay c overtakes (serves (listen c.http_addr)))
        (api_main lookup parse_duration env overtakes listen)
      × (Exits env c
            (returns_nil (classify_with (new_classifier c) c.worker_concurrency))
            (classifier_main lookup parse_duration env classify_with)
          × Exits env c
              (returns_nil (extract_with c.worker_concurrency))
              (extractor_main lookup parse_duration env extract_with))
unfolding api_main classifier_main extractor_main
mains-Exits env lookup parse_duration overtakes listen classify_with extract_with =
    let c = read_config lookup parse_duration in
    let end = load-LoadEnd lookup parse_duration in
    (
      command-Exits env (λ x. beside_relay x overtakes (serves (listen x.http_addr))) c _ end,
      (
        command-Exits env (λ x. returns_nil (classify_with (new_classifier x) x.worker_concurrency))
            c _ end,
        command-Exits env (λ x. returns_nil (extract_with x.worker_concurrency)) c _ end,
      ),
    )
