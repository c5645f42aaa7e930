-- ===== src/Config/Loaded.antt =====
-- internal/config/config.go: the configurations that `Load` accepts.
use sayari.Prelude.{
  ◌≡◌, ◌≢◌, refl, inl, inr, true, false, ◌&&◌, Option, [], Text, codes, text_eq, text_eq→eq,
  text_eq_iff, ℤ, is_positive, arith, Bool-cases,
}
use sayari.Config.{
  Config, Loading, loaded, failed, key_required, bad_concurrency, read_config, validate, load,
}

-- What `Load` asks for: at least one message is handled at a time, and a hosted model has a key.
abbrev pub IsAccepted : Config → Type 0
IsAccepted c =
    (is_positive c.worker_concurrency ≡ true)
    × (c.llm_provider ≡ codes "ollama" → c.ollama_api_key ≢ [])

-- How `Load` ends, for the configuration `c` that it has read.
pub data LoadEnd (c : Config) (r : Loading) : Type 0 where
  accepts : IsAccepted c → r ≡ loaded c → LoadEnd c r
  without_key :
      c.llm_provider ≡ codes "ollama"
      → c.ollama_api_key ≡ []
      → r ≡ failed key_required
      → LoadEnd c r
  too_few :
      (c.llm_provider ≡ codes "ollama" → c.ollama_api_key ≢ [])
      → is_positive c.worker_concurrency ≡ false
      → r ≡ failed (bad_concurrency c.worker_concurrency)
      → LoadEnd c r

-- `Load` ends in one of three ways, whatever the environment holds: it answers the configuration
-- that it has read, whose worker concurrency is positive and which has a key if the provider is
-- "ollama"; or the provider is "ollama", there is no key, and it answers that a key is required; or
-- the concurrency is not positive, and it answers that with the number. Nothing else is checked, the
-- durations among it.
pub load-LoadEnd :
    (lookup : Text → Option Text) (parse_duration : Text → Option ℤ)
    → LoadEnd (read_config lookup parse_duration) (load lookup parse_duration)
unfolding load validate
load-LoadEnd lookup parse_duration =
    let c = read_config lookup parse_duration in
    elim (Bool-cases (text_eq c.llm_provider (codes "ollama") && text_eq c.ollama_api_key [])) [
      | inl missing ↦ rw missing (
          LoadEnd.without_key (text_eq→eq _ _ (ground (arith, missing)))
            (text_eq→eq _ _ (ground (arith, missing))) refl)
      | inr fine ↦
          let keyed : c.llm_provider ≡ codes "ollama" → c.ollama_api_key ≢ [] = λ provider key.
            absurd (
              ground (
                arith,
                fine,
                (text_eq_iff c.llm_provider (codes "ollama")).1 provider,
                (text_eq_iff c.ollama_api_key []).1 key,
              )) in
          elim (Bool-cases (is_positive c.worker_concurrency)) [
            | inl many ↦ rw (fine, many) (LoadEnd.accepts (many, keyed) refl)
            | inr few ↦ rw (fine, few) (LoadEnd.too_few keyed few refl)
          ]
    ]
