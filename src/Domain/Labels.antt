-- ===== src/Domain/Labels.antt =====
-- internal/domain/domain.go: the string enumerations. The status columns have CHECK constraints,
-- so a status is one of the constants; a category is any text, as one of a request or a model can
-- be.
use sayari.Prelude.{
  ◌≡◌, refl, sym, subst, ◌↔◌, inl, inr, Bool, true, false, Text, codes, text_eq, text_eq→eq,
  if◌then◌else◌, arith, Bool-cases,
}

pub data DocStatus : Type 0 where
  pending extracting classifying completed failed : DocStatus

pub data TokenStatus : Type 0 where
  pending classified : TokenStatus

unfoldable pub doc_status_text : DocStatus → Text
doc_status_text DocStatus.pending = codes "PENDING"
doc_status_text DocStatus.extracting = codes "EXTRACTING"
doc_status_text DocStatus.classifying = codes "CLASSIFYING"
doc_status_text DocStatus.completed = codes "COMPLETED"
doc_status_text DocStatus.failed = codes "FAILED"

unfoldable pub token_status_text : TokenStatus → Text
token_status_text TokenStatus.pending = codes "PENDING"
token_status_text TokenStatus.classified = codes "CLASSIFIED"

-- `DocStatus.Valid`, on any string.
unfoldable pub doc_status_valid : Text → Bool
doc_status_valid s =
    if text_eq s (codes "PENDING")
    then true
    else if text_eq s (codes "EXTRACTING")
    then true
    else if text_eq s (codes "CLASSIFYING")
    then true
    else if text_eq s (codes "COMPLETED")
    then true
    else if text_eq s (codes "FAILED")
    then true
    else false

-- `type Category string`.
abbrev pub Category : Type 0
Category = Text

abbrev pub category_company : Category
category_company = codes "COMPANY"

abbrev pub category_person : Category
category_person = codes "PERSON"

abbrev pub category_address : Category
category_address = codes "ADDRESS"

abbrev pub category_date : Category
category_date = codes "DATE"

abbrev pub category_unknown : Category
category_unknown = codes "UNKNOWN"

-- `Category.Valid`.
unfoldable pub category_valid : Category → Bool
category_valid c =
    if text_eq c category_company
    then true
    else if text_eq c category_person
    then true
    else if text_eq c category_address
    then true
    else if text_eq c category_date
    then true
    else if text_eq c category_unknown
    then true
    else false

doc_status_valid-text : (d : DocStatus) → doc_status_valid (doc_status_text d) ≡ true
unfolding doc_status_valid doc_status_text text_eq
doc_status_valid-text DocStatus.pending = refl
doc_status_valid-text DocStatus.extracting = refl
doc_status_valid-text DocStatus.classifying = refl
doc_status_valid-text DocStatus.completed = refl
doc_status_valid-text DocStatus.failed = refl

doc_status_of_valid :
    (s : Text) → doc_status_valid s ≡ true → (d : DocStatus) × (doc_status_text d ≡ s)
unfolding doc_status_valid doc_status_text
doc_status_of_valid s h = elim (Bool-cases (text_eq s (codes "PENDING"))) [
  | inl e ↦ (DocStatus.pending, sym (text_eq→eq _ _ e))
  | inr n1 ↦ elim (Bool-cases (text_eq s (codes "EXTRACTING"))) [
    | inl e ↦ (DocStatus.extracting, sym (text_eq→eq _ _ e))
    | inr n2 ↦ elim (Bool-cases (text_eq s (codes "CLASSIFYING"))) [
      | inl e ↦ (DocStatus.classifying, sym (text_eq→eq _ _ e))
      | inr n3 ↦ elim (Bool-cases (text_eq s (codes "COMPLETED"))) [
        | inl e ↦ (DocStatus.completed, sym (text_eq→eq _ _ e))
        | inr n4 ↦ (DocStatus.failed, sym (text_eq→eq _ _ (ground (arith, n1, n2, n3, n4, h))))
      ]
    ]
  ]
]

-- A text is a valid status exactly when it is the text of one of the five constants.
pub doc_status_valid_iff :
    (s : Text) → (doc_status_valid s ≡ true) ↔ ((d : DocStatus) × (doc_status_text d ≡ s))
doc_status_valid_iff s = (
  doc_status_of_valid s,
  λ p. subst (λ t. doc_status_valid t ≡ true) p.1 (doc_status_valid-text p.0),
)
