-- ===== src/Tests/Models.antt =====
-- internal/llm at concrete replies and tokens.
use sayari.Prelude.{
  ℕ, zero, suc, ◌≤◌, ◌≡◌, refl, ◌⊎◌, ◌==◌, true, false, none, [], ◌∷◌, pos, negsuc, codes, text_eq,
  length, arith,
}
use sayari.Strings.{trim_space}
use sayari.Domain.{Token}
use sayari.Domain.Labels.{TokenStatus, category_unknown, category_valid}
use sayari.Llm.{Patterns, mock_classify, answer_category}
use sayari.Llm.Retry.{backoff, judge, Reply, Outcome, do_with_retry}
use sayari.Llm.Outcomes.{Ended, Doubles, do_with_retry-Ended, do_with_retry-waits}
use sayari.Llm.Answers.{mock_classify-bounds, answer_category-valid}
use sayari.Tests.{doc_id, acme}

-- A timeout, a 503, then an answer.
abbrev calls : ℕ → Reply
calls zero = Reply.no_reply
calls (suc zero) = Reply.status 503 []
calls (suc (suc k)) = Reply.status 200 (codes "{}")

third_answers :
    do_with_retry calls (λ _. false) (pos 4)
    ≡ (Outcome.answer (codes "{}"), pos 250000000 ∷ pos 500000000 ∷ [])
unfolding do_with_retry judge backoff
third_answers = refl

second_is_last : do_with_retry calls (λ _. false) (pos 1) ≡ (Outcome.exhausted, pos 250000000 ∷ [])
unfolding do_with_retry judge backoff
second_is_last = refl

-- The int64 is negative at attempt 37.
wraps : backoff 37 ≡ negsuc 1266874889709551615
unfolding backoff
wraps = refl

no_attempt : do_with_retry calls (λ _. false) (negsuc 0) ≡ (Outcome.exhausted, [])
unfolding do_with_retry judge backoff
no_attempt = refl

two_retries : Ended calls (λ j. j == 2) 1 0 5 (do_with_retry calls (λ j. j == 2) (pos 4)).0
two_retries = do_with_retry-Ended calls (λ j. j == 2) 4

do_with_retry-waits_example :
    Doubles calls (λ _. false) 250000000 (do_with_retry calls (λ _. false) (pos 4)).1
    × (length (do_with_retry calls (λ _. false) (pos 4)).1 ≤ 4)
do_with_retry-waits_example = do_with_retry-waits calls (λ _. false) 4 (omega arith)

abbrev patterns : Patterns
patterns = record {
  date = λ s. false;
  address_prefix = λ s. false;
  org_suffix = λ s. text_eq s (codes "Acme Corp");
  person = λ s. true;
}

abbrev pub acme_token : Token
acme_token = record {
  id = 1;
  document_id = doc_id;
  run_version = 1;
  text = acme.text;
  context = acme.context;
  position = acme.position;
  status = TokenStatus.pending;
  classification = none;
  confidence = none;
  reasoning = none;
  created_at = 3;
  classified_at = none;
}

acme_bounds :
    let answer = mock_classify patterns acme_token in
    (category_valid answer.category ≡ true)
    × (((answer.category ≡ category_unknown) × (answer.hundredths ≡ 40))
        ⊎ ((80 ≤ answer.hundredths) × (answer.hundredths ≤ 99)))
acme_bounds = mock_classify-bounds patterns acme_token

some_category :
    (category_valid (answer_category (λ s. s) (codes " COMPANY ")) ≡ true)
    × (category_valid (trim_space (codes " COMPANY ")) ≡ true
        → answer_category (λ s. s) (codes " COMPANY ") ≡ trim_space (codes " COMPANY "))
some_category = answer_category-valid (λ s. s) (codes " COMPANY ")
