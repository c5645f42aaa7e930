-- ===== src/Nlp/Sorted.antt =====
-- internal/nlp/mock.go: the order of the entities that `Extract` answers.
use sayari.Prelude.{
  ℕ, ◌≤◌, ◌≡◌, refl, ◌==◌, inl, inr, leb, List, [], ◌∷◌, select, arith, Bool-cases,
}
use sayari.Domain.{Document}
use sayari.Nlp.{Rule, insert_by, sort_by, char_offset, extract, extract_sentences}
use sayari.Nlp.Sentences.{split_sentences}

module _ {A : Type 0} (key : A → ℕ) where
  -- The keys ascend, from `lo`.
  abbrev pub Ascends : ℕ → List A → Type 0
  Ascends lo [] = Unit
  Ascends lo (x ∷ xs) = (lo ≤ key x) × Ascends (key x) xs

  insert-Ascends :
      (lo : ℕ) (x : A) (xs : List A) → lo ≤ key x → Ascends lo xs → Ascends lo (insert_by key x xs)
  unfolding insert_by
  insert-Ascends lo x [] h a = (h, tt)
  insert-Ascends lo x (y ∷ ys) h a = elim (Bool-cases (leb (key x) (key y))) [
    | inl le ↦ rw le (h, (ground (arith, le), a.1))
    | inr gt ↦ rw gt (a.0, insert-Ascends (key y) x ys (ground (arith, gt)) a.1)
  ]

  sort-Ascends : (xs : List A) → Ascends 0 (sort_by key xs)
  unfolding sort_by
  sort-Ascends [] = tt
  sort-Ascends (x ∷ xs) = insert-Ascends 0 x (sort_by key xs) (omega arith) (sort-Ascends xs)

  abbrev pub at_key : ℕ → List A → List A
  at_key k = select (λ x. key x == k)

  insert-at_key : (k : ℕ) (x : A) (xs : List A) → at_key k (insert_by key x xs) ≡ at_key k (x ∷ xs)
  unfolding insert_by
  insert-at_key k x [] = refl
  insert-at_key k x (y ∷ ys) = elim (Bool-cases (leb (key x) (key y))) [
    | inl le ↦ rw le refl
    | inr gt ↦ rw gt (ground (arith, gt, insert-at_key k x ys))
  ]

  sort-at_key : (k : ℕ) (xs : List A) → at_key k (sort_by key xs) ≡ at_key k xs
  unfolding sort_by
  sort-at_key k [] = refl
  sort-at_key k (x ∷ xs) = ground (arith, insert-at_key k x (sort_by key xs), sort-at_key k xs)

-- The extractor's entities come in the order of their offsets in the document, and those of one
-- offset are the ones that the sentences gave, in the order in which they gave them: none is lost,
-- added or repeated by the sort.
pub extract-Ascends :
    (rules : List Rule) (doc : Document)
    → Ascends char_offset 0 (extract rules doc)
      × ((k : ℕ)
          → at_key char_offset k (extract rules doc)
            ≡ at_key char_offset k (extract_sentences rules (split_sentences doc.text)))
unfolding extract
extract-Ascends rules doc =
    let es = extract_sentences rules (split_sentences doc.text) in
    (sort-Ascends char_offset es, λ k. sort-at_key char_offset k es)
