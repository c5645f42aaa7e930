-- ===== src/Llm.antt =====
-- internal/llm: the two classifiers. The HTTP client, the patterns and Unicode's upper case are
-- parameters.
pub mod Retry
pub mod Outcomes
mod Hash
pub mod Answers
pub mod Reading
pub mod Ollama
use sayari.Prelude.{
  ℕ, zero, suc, ◌+◌, ◌-◌, ◌*◌, ◌%◌, ◌^◌, ◌==◌, Bool, true, false, ◌||◌, Option, none, some, List,
  [], ◌∷◌, ◌++◌, Text, codes, text_eq, leb, ltb, length, take, if◌then◌else◌, ℤ, pos, negsuc,
}
use sayari.Strings.{trim_space}
use sayari.Domain.{Token}
use sayari.Domain.Labels.{
  Category, category_company, category_person, category_address, category_date, category_unknown,
  category_valid,
}
use Hash.{fnv32a}

-- The four patterns of mock.go: does MatchString find one?
pub record Patterns : Type 0 where
  pub date : Text → Bool
  pub address_prefix : Text → Bool
  pub org_suffix : Text → Bool
  pub person : Text → Bool

classify_text : Patterns → Text → Category × Text
classify_text p text =
    if p.date text
    then (category_date, codes "matches a date/temporal pattern")
    else if p.address_prefix text
    then (category_address, codes "leading street number indicates a postal address")
    else if p.org_suffix text
    then (category_company, codes "contains a corporate suffix")
    else if p.person text
    then (category_person, codes "capitalized personal-name pattern")
    else (category_unknown, codes "no confident signal from the token text")

-- `classify` of mock.go.
unfoldable pub classify : Patterns → Token → Category × Text
unfolding classify_text
classify p tok = classify_text p (trim_space tok.text)

-- `confidence`, in hundredths: 0.40, or 0.80 and up to 0.19 more.
unfoldable pub confidence : Text → Category → ℕ
confidence text c = if text_eq c category_unknown then 40 else 80 + fnv32a text % 20

pub record MockAnswer : Type 0 where
  pub category : Category
  pub hundredths : ℕ
  pub reasoning : Text

-- `MockClassifier.Classify`, after its delay.
unfoldable pub mock_classify : Patterns → Token → MockAnswer
unfolding classify confidence
mock_classify p tok =
    let (category, reason) = classify p tok in
    record { category = category; hundredths = confidence tok.text category; reasoning = reason }

-- The category that `OllamaClassifier.Classify` makes of a model's: one of the five.
unfoldable pub answer_category : (Text → Text) → Text → Category
answer_category to_upper parsed =
    let category = to_upper (trim_space parsed) in
    if category_valid category then category else category_unknown
