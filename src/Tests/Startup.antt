-- ===== src/Tests/Startup.antt =====
-- The starts of the processes at concrete dependencies: internal/app/app.go, internal/store/store.go
-- and cmd.
use sayari.Prelude.{
  ℕ, ◌≡◌, refl, ltb, not, Bool, true, false, Option, none, some, List, [], ◌∷◌, Text, codes,
  text_eq, ℤ, pos, if◌then◌else◌,
}
use sayari.Config.{read_config, load}
use sayari.Bootstrap.{new_store, new_broker, new_classifier}
use sayari.Bootstrap.Migrations.{
  DirEntry, Schema, acquire, lock, unlock, release, apply_file, unapplied, migrate, text_leb,
}
use sayari.Bootstrap.Applied.{MigrateEnd, migrate-MigrateEnd}
use sayari.Bootstrap.Pools.{open_pools, StoreEnd, new_store-StoreEnd}
use sayari.Bootstrap.Commands.{
  Surroundings, Served, after_store, after_broker, exit_with, command, api_main, classifier_main,
  extractor_main, serves, returns_nil, beside_relay,
}
use sayari.Bootstrap.Exits.{Exits, mains-Exits}

abbrev file : Text → DirEntry
file n = record { name = n; is_dir = false }

abbrev listing : List DirEntry
listing =
    file (codes "0002_b.sql")
    ∷ file (codes "README")
    ∷ record { name = codes "old.sql"; is_dir = true }
    ∷ file (codes "0001_a.sql")
    ∷ []

abbrev fresh : Schema
fresh = record {
  acquires = true;
  locks = true;
  entries = some listing;
  reads = λ _. true;
  applies = λ _. true;
}

-- The second file is refused.
abbrev stale_schema : Schema
stale_schema = record fresh { applies = λ n. not (text_eq n (codes "0002_b.sql")) }

in_order : migrate fresh ≡ (
  none,
  acquire
      ∷ lock
      ∷ apply_file (codes "0001_a.sql")
      ∷ apply_file (codes "0002_b.sql")
      ∷ unlock
      ∷ release
      ∷ [],
)
unfolding migrate text_leb text_eq
in_order = refl

refused : (migrate stale_schema).0 ≡ some (unapplied (codes "0002_b.sql"))
unfolding migrate text_leb text_eq
refused = refl

migrate-MigrateEnd_example :
    MigrateEnd stale_schema (migrate stale_schema).0 (migrate stale_schema).1
migrate-MigrateEnd_example = migrate-MigrateEnd stale_schema

-- Postgres listens from the third attempt on, and answers a ping from the fourth on.
abbrev slowly : ℕ → ℕ → Bool
slowly first i = not (ltb i first)

-- A failing migration leaves its pool open.
leaking : open_pools 0 (new_store (slowly 2) (slowly 3) (λ _. false) stale_schema).1 ≡ 1
unfolding new_store migrate text_leb text_eq
leaking = refl

new_store-StoreEnd_example :
    StoreEnd
      (slowly 2)
      (slowly 3)
      (λ _. false)
      fresh
      (new_store (slowly 2) (slowly 3) (λ _. false) fresh).0
      (open_pools 0 (new_store (slowly 2) (slowly 3) (λ _. false) fresh).1)
new_store-StoreEnd_example = new_store-StoreEnd (slowly 2) (slowly 3) (λ _. false) fresh

abbrev around : Surroundings
around = record {
  connects = slowly 2;
  pings = slowly 3;
  store_done = λ _. false;
  schema = fresh;
  redis_pings = slowly 1;
  broker_done = λ _. false;
}

abbrev nothing_set : Text → Option Text
nothing_set key = none

abbrev no_parse : Text → Option ℤ
no_parse s = none

clean : (api_main nothing_set no_parse around true (λ _. Served.server_closed)).0 ≡ 0
unfolding api_main command serves load migrate text_leb text_eq new_store new_classifier read_config
    after_store after_broker new_broker exit_with beside_relay
clean = refl

-- With OUTBOX_POLL_INTERVAL=0s the relay panics.
abbrev no_interval : Text → Option Text
no_interval key = if text_eq key (codes "OUTBOX_POLL_INTERVAL") then some (codes "0s") else none

abbrev zero_seconds : Text → Option ℤ
zero_seconds s = some (pos 0)

panicked : (api_main no_interval zero_seconds around true (λ _. Served.server_closed)).0 ≡ 2
unfolding api_main command serves load migrate text_leb text_eq new_store new_classifier read_config
    after_store after_broker new_broker exit_with beside_relay
panicked = refl

mains-Exits_example :
    Exits around
      (read_config nothing_set no_parse)
      (beside_relay (read_config nothing_set no_parse) true (serves Served.server_closed))
      (api_main nothing_set no_parse around true (λ _. Served.server_closed))
    × (Exits around
          (read_config nothing_set no_parse)
          (returns_nil true)
          (classifier_main nothing_set no_parse around (λ m n. true))
        × Exits around
            (read_config nothing_set no_parse)
            (returns_nil false)
            (extractor_main nothing_set no_parse around (λ n. false)))
mains-Exits_example =
    mains-Exits around nothing_set no_parse true (λ _. Served.server_closed) (λ m n. true)
      (λ n. false)
