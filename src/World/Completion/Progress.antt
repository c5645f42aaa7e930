-- ===== src/World/Completion/Progress.antt =====
-- internal/pipeline/classifier.go: how an `apply` moves a document that waits for its tokens.
use mathlib.Core.Option
use sayari.Prelude.{
  ℕ, ◌≤◌, ◌<◌, ◌≡◌, refl, sym, ap, ◌⊎◌, inl, inr, Bool-cases, Option, some, List, [], ◌∷◌, Text,
  text_eq, text_eq→eq, All, count_where, arith,
}
use sayari.Domain.{Document, Token, Classification}
use sayari.Domain.Labels.{DocStatus, TokenStatus}
use sayari.Store.{Db}
use sayari.Store.Documents.{belongs_to}
use sayari.Store.Tokens.{find_token, update_token}
use sayari.System.Counts.{classified_of, classified_tokens}
use sayari.System.Invariant.{updated}
use sayari.Pipeline.Classification.Consistency.{updated_twice}
use sayari.Pipeline.Classification.{apply}
use sayari.Pipeline.Classification.Runs.{counted_row, completed_row}
use sayari.Pipeline.Classification.Changes.{Changed, apply-Changed}
use sayari.World.Completion.{IsServed}

-- The document waits for a token, or is COMPLETED.
abbrev pub Progressed : Document → Type 0
Progressed doc = (doc.classified_count < doc.total_tokens) ⊎ (doc.status ≡ DocStatus.completed)

pub data Progresses (o : Option Document) : Type 0 where
  progresses : (doc : Document) → o ≡ some doc → Progressed doc → Progresses o

Progresses-map :
    (f : Document → Document) (o : Option Document)
    → ((doc : Document) → o ≡ some doc → Progressed (f doc))
    → Progresses o
    → Progresses (Option.map f o)
Progresses-map f o keep (progresses doc e h) = progresses (f doc) (ap (Option.map f) e) (keep doc e)

Progresses-updated :
    (id j : Text) (f : Document → Document) (docs : Text → Option Document)
    → ((doc : Document) → docs j ≡ some doc → Progressed (f doc))
    → Progresses (docs id)
    → Progresses (updated j f docs id)
Progresses-updated id j f docs keep h = elim (Bool-cases (text_eq id j)) [
  | inl same ↦
      rw same (Progresses-map f (docs id) (λ doc e. keep doc (rw (sym (text_eq→eq id j same)) e)) h)
  | inr other ↦ rw other h
]

Progresses-twice :
    (id j : Text) (f g : Document → Document) (docs : Text → Option Document)
    → Progresses (updated j (λ doc. g (f doc)) docs id)
    → Progresses (updated j g (updated j f docs) id)
Progresses-twice id j f g docs h = rw (updated_twice j f g docs id) h

-- A token that is pending after the update was there before.
find-before :
    (k now : ℕ) (c : Classification) (j : ℕ) (t : Token) (ts : List Token)
    → find_token j (classified_tokens k now c ts) ≡ some t
    → t.status ≡ TokenStatus.pending
    → find_token j ts ≡ some t
unfolding find_token update_token
find-before k now c j t [] e p = cc
find-before k now c j t (x ∷ xs) e p = ground (arith, find-before k now c j t xs)

-- Where no delivery is needed, every token is classified.
none_needed_row :
    (id : Text) (t : Token) (ts : List Token) (s : TokenStatus)
    → t.status ≡ s
    → IsServed id [] t
    → count_where (belongs_to id) ts ≤ count_where (classified_of id) ts
    → count_where (belongs_to id) (t ∷ ts) ≤ count_where (classified_of id) (t ∷ ts)
none_needed_row id t ts TokenStatus.classified e served h = ground (arith, h, e)
none_needed_row id t ts TokenStatus.pending e served h =
    elim (Bool-cases (text_eq t.document_id id)) [
      | inl own ↦ absurd (served (text_eq→eq _ _ own) e)
      | inr other ↦ rw other h
    ]

pub none_needed :
    (id : Text) (ts : List Token)
    → All (IsServed id []) ts
    → count_where (belongs_to id) ts ≤ count_where (classified_of id) ts
none_needed id [] h = omega arith
none_needed id (t ∷ ts) h = none_needed_row id t ts t.status refl h.0 (none_needed id ts h.1)

module _ (id : Text) (now k : ℕ) (c : Classification) (d d' : Db) where
  Changed-Progresses :
      Changed now k c d d' → Progresses (d.documents id) → Progresses (d'.documents id)
  Changed-Progresses (Changed.unchanged e) h = rw e h
  Changed-Progresses (Changed.counted t doc f st own more e) h = rw e (
      Progresses-updated id t.document_id (counted_row now) d.documents
        (λ old at. inl (ground (arith, own, at, more))) h)
  Changed-Progresses (Changed.completed t doc f st own last e) h = rw e (
      Progresses-twice id t.document_id (counted_row now) (completed_row now) d.documents (
        Progresses-updated id t.document_id (λ old. completed_row now (counted_row now old))
          d.documents (λ old at. inr refl) h))

module _ (j now k : ℕ) (c : Classification) (d d' : Db) (t : Token)
    (is_pending : t.status ≡ TokenStatus.pending) where
  Changed-before :
      Changed now k c d d' → find_token j d'.tokens ≡ some t → find_token j d.tokens ≡ some t
  Changed-before (Changed.unchanged e) = rw e (λ h. h)
  Changed-before (Changed.counted x doc f st own more e) =
      rw e (λ h. find-before k now c j t d.tokens h is_pending)
  Changed-before (Changed.completed x doc f st own last e) =
      rw e (λ h. find-before k now c j t d.tokens h is_pending)

module _ (now k run : ℕ) (c : Classification) (d : Db) (link : Option ℕ) where
  pub apply-Progresses :
      (id : Text)
      → Progresses (d.documents id)
      → Progresses ((apply link now k run c d).1.documents id)
  apply-Progresses id = Changed-Progresses id now k c d _ (apply-Changed now k run c d link)

  pub apply-before :
      (j : ℕ) (t : Token)
      → t.status ≡ TokenStatus.pending
      → find_token j (apply link now k run c d).1.tokens ≡ some t
      → find_token j d.tokens ≡ some t
  apply-before j t is_pending =
      Changed-before j now k c d _ t is_pending (apply-Changed now k run c d link)
