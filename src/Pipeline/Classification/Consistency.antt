-- ===== src/Pipeline/Classification/Consistency.antt =====
-- internal/pipeline/classifier.go: `apply` and the invariant of the tables.
use mathlib.Core.Path.{fun_ext}
use sayari.Prelude.{ℕ, ◌≡◌, refl, inl, inr, Option, Text, arith, subst, sym}
use sayari.Domain.{Document, Classification}
use sayari.Store.{Db}
use sayari.System.Counts.{classified_tokens}
use sayari.System.Invariant.{IsConsistent, Inv, updated}
use sayari.System.Classified.{Inv-classified}
use sayari.Pipeline.Classification.{apply}
use sayari.Pipeline.Classification.Runs.{counted_row, completed_row}
use sayari.Pipeline.Classification.Changes.{Changed, apply-Changed}

pub updated_twice :
    (id : Text) (f g : Document → Document) (docs : Text → Option Document) (j : Text)
    → updated id g (updated id f docs) j ≡ updated id (λ doc. g (f doc)) docs j
updated_twice id f g docs j = ground arith

module _ (now k run : ℕ) (c : Classification) (d : Db) (v : IsConsistent d) where
  Changed-IsConsistent : (d' : Db) → Changed now k c d d' → IsConsistent d'
  Changed-IsConsistent d' (Changed.unchanged e) = rw e v
  Changed-IsConsistent d' (Changed.counted t doc found status own more e) = rw e (
      Inv-classified d.documents d.tokens d.next_token v k now c t found status (counted_row now)
        (λ _. refl) (λ _. (refl, refl, refl)) (λ _ _ p. inl p))
  Changed-IsConsistent d' (Changed.completed t doc found status own last e) = rw e (
      subst (λ docs. Inv docs (classified_tokens k now c d.tokens) d.next_token)
        (sym
          (fun_ext (updated_twice t.document_id (counted_row now) (completed_row now) d.documents)))
        (Inv-classified d.documents d.tokens d.next_token v k now c t found status
          (λ old. completed_row now (counted_row now old)) (λ _. refl) (λ _. (refl, refl, refl))
          (λ old at _. inr (ground arith))))

  -- `apply` keeps the invariant: for any token, run and result, and wherever the connection fails.
  pub apply-IsConsistent : (link : Option ℕ) → IsConsistent (apply link now k run c d).1
  apply-IsConsistent link = Changed-IsConsistent _ (apply-Changed now k run c d link)
