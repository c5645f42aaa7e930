-- ===== src/Tests/Environment.antt =====
-- internal/config/config.go at concrete environments.
use sayari.Prelude.{
  ◌≡◌, refl, Option, none, some, Text, codes, text_eq, ℤ, pos, negsuc, if◌then◌else◌,
}
use sayari.Strings.{atoi}
use sayari.Config.{failed, key_required, bad_concurrency, read_config, load}
use sayari.Config.Loaded.{LoadEnd, load-LoadEnd}

abbrev unset : Text → Option Text
unset key = none

abbrev no_duration : Text → Option ℤ
no_duration s = none

abbrev setting : Text → Text → Text → Option Text
setting name value key = if text_eq key name then some value else none

defaults : (read_config unset no_duration).worker_concurrency ≡ pos 8
unfolding read_config
defaults = refl

hosted_without_key :
    load (setting (codes "LLM_PROVIDER") (codes "ollama")) no_duration ≡ failed key_required
unfolding load text_eq
hosted_without_key = refl

no_workers :
    load (setting (codes "WORKER_CONCURRENCY") (codes "-2")) no_duration
    ≡ failed (bad_concurrency (negsuc 1))
unfolding load text_eq atoi
no_workers = refl

load-LoadEnd_example :
    LoadEnd
      (read_config (setting (codes "WORKER_CONCURRENCY") (codes "-2")) no_duration)
      (load (setting (codes "WORKER_CONCURRENCY") (codes "-2")) no_duration)
load-LoadEnd_example = load-LoadEnd (setting (codes "WORKER_CONCURRENCY") (codes "-2")) no_duration
