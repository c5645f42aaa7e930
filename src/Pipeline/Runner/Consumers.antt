-- ===== src/Pipeline/Runner/Consumers.antt =====
-- internal/pipeline/runner.go: the consumers' names, and what `run` returns.
use sayari.Prelude.{
  ℕ, zero, suc, ◌<◌, ◌≡◌, ◌≢◌, refl, ap, inl, inr, Option, none, some, Option-cases, List, [], ◌∷◌,
  ◌++◌, map, Text, codes, All, Any, length, arith,
}
use sayari.Store.Tx.{Error}
use sayari.Pipeline.Runner.{
  Worker, RunError, host_name, consumer_name, names_from, consumer_count, consumer_names, wrapped,
  run,
}
use sayari.Pipeline.Runner.Digits.{format_int-injective}

-- No text comes twice.
abbrev pub IsDistinct : List Text → Type 0
IsDistinct [] = Unit
IsDistinct (s ∷ ss) = All (λ t. t ≢ s) ss × IsDistinct ss

append_cancel : (xs ys zs : Text) → xs ++ ys ≡ xs ++ zs → ys ≡ zs
append_cancel [] ys zs e = e
append_cancel (x ∷ xs) ys zs e = append_cancel xs ys zs cc

module _ (host group : Text) where
  consumer_name-injective :
      (i j : ℕ) → consumer_name host group i ≡ consumer_name host group j → i ≡ j
  unfolding consumer_name
  consumer_name-injective i j e = format_int-injective i j (
      append_cancel (codes "-") _ _
        (append_cancel group _ _ (append_cancel (codes "-") _ _ (append_cancel host _ _ e))))

  names_from-apart :
      (i j left : ℕ)
      → i < j
      → All (λ t. t ≢ consumer_name host group i) (names_from host group j left)
  unfolding names_from
  names_from-apart i j zero h = tt
  names_from-apart i j (suc left) h = (
    λ e. absurd (omega (arith, h, consumer_name-injective j i e)),
    names_from-apart i (suc j) left (omega (arith, h)),
  )

  names_from-IsDistinct : (j left : ℕ) → IsDistinct (names_from host group j left)
  unfolding names_from
  names_from-IsDistinct j zero = tt
  names_from-IsDistinct j (suc left) =
      (names_from-apart j (suc j) left (omega arith), names_from-IsDistinct (suc j) left)

  length-names_from : (j left : ℕ) → length (names_from host group j left) ≡ left
  unfolding names_from
  length-names_from j zero = refl
  length-names_from j (suc left) = ap suc (length-names_from (suc j) left)

-- Each of a worker's consumers has a name of its own, and there are as many as the concurrency says
-- and none if that is negative.
pub consumer_names-IsDistinct :
    (hostname : Text) (w : Worker)
    → IsDistinct (consumer_names hostname w)
      × (length (consumer_names hostname w) ≡ consumer_count w.concurrency)
unfolding consumer_names
consumer_names-IsDistinct hostname w = (
  names_from-IsDistinct (host_name hostname) w.group 0 (consumer_count w.concurrency),
  length-names_from (host_name hostname) w.group 0 (consumer_count w.concurrency),
)

wrapped-none : (name : Text) (o : Option Error) → wrapped name o ≡ none → o ≡ none
unfolding wrapped
wrapped-none name none h = refl
wrapped-none name (some e) h = cc

wrapped-some :
    (name : Text) (o : Option Error) (e : RunError)
    → wrapped name o ≡ some e
    → (name ≡ e.consumer) × (o ≡ some e.cause)
unfolding wrapped
wrapped-some name none e h = cc
wrapped-some name (some x) e h =
    let same : record { consumer = name; cause = x } ≡ e = cc in
    (ap (λ r. r.consumer) same, ap (λ r. some r.cause) same)

-- errgroup: `Wait` answers nil if all goroutines returned nil, and else the error of one of them.
pub record Waits (wait : List (Option RunError) → Option RunError) : Type 0 where
  pub all_nil : (rs : List (Option RunError)) → wait rs ≡ none → All (λ r. r ≡ none) rs
  pub one_error :
      (rs : List (Option RunError)) (e : RunError) → wait rs ≡ some e → Any (λ r. r ≡ some e) rs

module _ (wait : List (Option RunError) → Option RunError) (waits : Waits wait)
    (consume : Text → Text → Text → Option Error) (hostname : Text) (w : Worker) where
  -- How `run` ends.
  pub data RunEnd (r : Option RunError) : Type 0 where
    stopped :
        All (λ name. consume w.stream w.group name ≡ none) (consumer_names hostname w)
        → r ≡ none
        → RunEnd r
    broken :
        (e : RunError)
        → Any
            (λ name. (name ≡ e.consumer) × (consume w.stream w.group name ≡ some e.cause))
            (consumer_names hostname w)
        → r ≡ some e
        → RunEnd r

  answers_nil :
      (names : List Text)
      → All (λ r. r ≡ none) (map (λ name. wrapped name (consume w.stream w.group name)) names)
      → All (λ name. consume w.stream w.group name ≡ none) names
  answers_nil [] h = tt
  answers_nil (n ∷ names) h = (wrapped-none n _ h.0, answers_nil names h.1)

  answers_error :
      (e : RunError) (names : List Text)
      → Any (λ r. r ≡ some e) (map (λ name. wrapped name (consume w.stream w.group name)) names)
      → Any (λ name. (name ≡ e.consumer) × (consume w.stream w.group name ≡ some e.cause)) names
  answers_error e [] h = absurd h
  answers_error e (n ∷ names) (inl h) = inl (wrapped-some n _ e h)
  answers_error e (n ∷ names) (inr h) = inr (answers_error e names h)

  -- A worker runs as many consumers as its concurrency says, none if that is negative, each under a
  -- name of its own. `run` returns nil if each of them does, and else the error of one of them, with
  -- its name; provided that the error group waits as errgroup documents.
  pub run-RunEnd :
      IsDistinct (consumer_names hostname w)
      × ((length (consumer_names hostname w) ≡ consumer_count w.concurrency)
          × RunEnd (run wait consume hostname w))
  unfolding run
  run-RunEnd =
      let names = consumer_names hostname w in
      let rs = map (λ name. wrapped name (consume w.stream w.group name)) names in
      let counted = consumer_names-IsDistinct hostname w in
      (
        counted.0,
        (
          counted.1,
          elim (Option-cases (wait rs)) [
            | inl nil ↦ RunEnd.stopped (answers_nil names (waits.all_nil rs nil)) nil
            | inr (e, failed) ↦
                RunEnd.broken e (answers_error e names (waits.one_error rs e failed)) failed
          ],
        ),
      )
