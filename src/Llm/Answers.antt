-- ===== src/Llm/Answers.antt =====
-- internal/llm: what the two classifiers answer.
use sayari.Prelude.{
  ℕ, ◌%◌, ◌≤◌, ◌≡◌, refl, ◌⊎◌, inl, inr, true, Text, text_eq, text_eq→eq, arith, Bool-cases,
}
use sayari.Strings.{trim_space}
use sayari.Domain.{Token}
use sayari.Domain.Labels.{Category, category_unknown, category_valid}
use sayari.Llm.{Patterns, classify_text, classify, confidence, mock_classify, answer_category}
use sayari.Llm.Hash.{fnv32a}

classify_text-valid : (p : Patterns) (text : Text) → category_valid (classify_text p text).0 ≡ true
unfolding classify_text category_valid text_eq
classify_text-valid p text = elim (Bool-cases (p.date text)) [
  | inl a ↦ rw a refl
  | inr a ↦ elim (Bool-cases (p.address_prefix text)) [
    | inl b ↦ rw (a, b) refl
    | inr b ↦ elim (Bool-cases (p.org_suffix text)) [
      | inl c ↦ rw (a, b, c) refl
      | inr c ↦ elim (Bool-cases (p.person text)) [
        | inl e ↦ rw (a, b, c, e) refl
        | inr e ↦ rw (a, b, c, e) refl
      ]
    ]
  ]
]

remainder_below : (n : ℕ) → n % 20 ≤ 19
remainder_below n = omega arith

confidence-bounds :
    (text : Text) (c : Category)
    → ((c ≡ category_unknown) × (confidence text c ≡ 40))
      ⊎ ((80 ≤ confidence text c) × (confidence text c ≤ 99))
unfolding confidence
confidence-bounds text c = elim (Bool-cases (text_eq c category_unknown)) [
  | inl same ↦ inl (text_eq→eq c category_unknown same, rw same refl)
  | inr other ↦ rw other (inr (omega arith, omega (arith, remainder_below (fnv32a text))))
]

-- Whatever the patterns find, the mock answers one of the five categories, and its confidence is
-- 40 hundredths for UNKNOWN, else from 80 to 99 hundredths.
pub mock_classify-bounds :
    (p : Patterns) (tok : Token)
    → let answer = mock_classify p tok in
      (category_valid answer.category ≡ true)
      × (((answer.category ≡ category_unknown) × (answer.hundredths ≡ 40))
          ⊎ ((80 ≤ answer.hundredths) × (answer.hundredths ≤ 99)))
unfolding mock_classify classify
mock_classify-bounds p tok = (
  classify_text-valid p (trim_space tok.text),
  confidence-bounds tok.text (classify_text p (trim_space tok.text)).0,
)

unknown_valid : category_valid category_unknown ≡ true
unfolding category_valid text_eq
unknown_valid = refl

-- Whatever text a model answers as the category, and however letters are turned into upper case, the
-- classifier's category is one of the five, and it is the model's own, trimmed and in upper case,
-- where that is one of the five.
pub answer_category-valid :
    (to_upper : Text → Text) (parsed : Text)
    → (category_valid (answer_category to_upper parsed) ≡ true)
      × (category_valid (to_upper (trim_space parsed)) ≡ true
          → answer_category to_upper parsed ≡ to_upper (trim_space parsed))
unfolding answer_category
answer_category-valid to_upper parsed =
    elim (Bool-cases (category_valid (to_upper (trim_space parsed)))) [
      | inl valid ↦ rw valid (valid, λ _. refl)
      | inr other ↦ rw other (unknown_valid, λ valid. absurd (ground (arith, valid)))
    ]
