-- ===== src/Tests/Workers.antt =====
-- internal/pipeline/runner.go with three consumers, of which one fails.
use sayari.Prelude.{
  ◌≡◌, refl, inl, inr, Option, none, some, List, [], ◌∷◌, All, Any, Text, codes, text_eq, length,
  pos, if◌then◌else◌,
}
use sayari.Store.Tx.{Error, unavailable}
use sayari.Pipeline.Jobs.{format_int}
use sayari.Pipeline.Runner.{
  Worker, RunError, consumer_name, consumer_count, consumer_names, extraction_worker, run,
}
use sayari.Pipeline.Runner.Consumers.{IsDistinct, Waits, RunEnd, run-RunEnd}

-- An error group whose goroutines end in order.
first_error : List (Option RunError) → Option RunError
first_error [] = none
first_error (none ∷ rs) = first_error rs
first_error (some e ∷ rs) = some e

first_error-nil : (rs : List (Option RunError)) → first_error rs ≡ none → All (λ r. r ≡ none) rs
unfolding first_error
first_error-nil [] h = tt
first_error-nil (none ∷ rs) h = (refl, first_error-nil rs h)
first_error-nil (some e ∷ rs) h = cc

first_error-some :
    (rs : List (Option RunError)) (e : RunError)
    → first_error rs ≡ some e
    → Any (λ r. r ≡ some e) rs
unfolding first_error
first_error-some [] e h = cc
first_error-some (none ∷ rs) e h = inr (first_error-some rs e h)
first_error-some (some x ∷ rs) e h = inl h

first_error-Waits : Waits first_error
first_error-Waits = record { all_nil = first_error-nil; one_error = first_error-some }

-- The second consumer loses its connection.
abbrev consume : Text → Text → Text → Option Error
consume stream group name =
    if text_eq name (codes "worker-extractors-1") then some unavailable else none

abbrev three : Worker
three = extraction_worker (pos 3)

second_fails :
    run first_error consume [] three
    ≡ some (record { consumer = codes "worker-extractors-1"; cause = unavailable })
unfolding run extraction_worker text_eq first_error format_int consumer_name
second_fails = refl

run-RunEnd_example :
    IsDistinct (consumer_names [] three)
    × ((length (consumer_names [] three) ≡ consumer_count three.concurrency)
        × RunEnd first_error first_error-Waits consume [] three (run first_error consume [] three))
run-RunEnd_example = run-RunEnd first_error first_error-Waits consume [] three
