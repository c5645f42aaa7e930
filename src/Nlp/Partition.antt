-- ===== src/Nlp/Partition.antt =====
-- internal/nlp/mock.go: the pieces into which `splitSentences` cuts a text.
use sayari.Prelude.{
  ℕ, zero, suc, ◌+◌, ◌-◌, ◌≤◌, ◌≡◌, refl, sym, ap, ◌∙◌, inl, inr, true, not, leb, List, [], ◌∷◌,
  ◌++◌, Text, take, drop, length, select, map, arith, Bool-cases, append-nil, take-append-drop,
  subst,
}
use sayari.Strings.{is_blank}
use sayari.Nlp.Sentences.{
  split_sentences, sentences_from, slice, boundary_ends, Mode, next_mode, ends_before, ends_last,
  next_start,
}

-- The text between each start and the next, the last up to the end.
unfoldable pub segments : Text → List ℕ → List Text
segments text [] = []
segments text (start ∷ more) = slice start (next_start text more) text ∷ segments text more

abbrev pub concat : List Text → Text
concat [] = []
concat (s ∷ ss) = s ++ concat ss

-- The starts ascend from `lo` and do not pass the end.
StartsBetween : ℕ → ℕ → List ℕ → Type 0
StartsBetween lo hi [] = lo ≤ hi
StartsBetween lo hi (x ∷ xs) = (lo ≤ x) × StartsBetween x hi xs

drop-drop : (n k m : ℕ) (text : Text) → m ≡ n + k → drop k (drop n text) ≡ drop m text
drop-drop zero k m text e = let same : m ≡ k = omega (arith, e) in rw same refl
drop-drop (suc n) k zero text e = absurd (omega (arith, e))
drop-drop (suc n) zero (suc m) [] e = refl
drop-drop (suc n) (suc k) (suc m) [] e = refl
drop-drop (suc n) k (suc m) (c ∷ s) e = drop-drop n k m s (omega (arith, e))

length-drop : (n : ℕ) (text : Text) → length (drop n text) ≡ length text - n
length-drop zero text = omega arith
length-drop (suc n) [] = omega arith
length-drop (suc n) (c ∷ s) = omega (arith, length-drop n s)

take_all : (n : ℕ) (text : Text) → length text ≤ n → take n text ≡ text
take_all zero [] h = refl
take_all zero (c ∷ s) h = absurd (omega arith)
take_all (suc n) [] h = refl
take_all (suc n) (c ∷ s) h = rw (take_all n s (omega arith)) refl

segments-text :
    (text : Text) (start : ℕ) (more : List ℕ)
    → StartsBetween start (length text) more
    → concat (segments text (start ∷ more)) ≡ drop start text
unfolding segments slice next_start StartsBetween
segments-text text start [] h =
    append-nil (take (length text - start) (drop start text))
    ∙ take_all (length text - start) (drop start text) (omega (arith, length-drop start text))
segments-text text start (next ∷ more) h =
    ap (λ rest. take (next - start) (drop start text) ++ rest)
      (segments-text text next more h.1
        ∙ sym (drop-drop start (next - start) next text (omega (arith, h.0))))
    ∙ take-append-drop (next - start) (drop start text)

StartsBetween-weaken :
    (lo mid hi : ℕ) (xs : List ℕ) → lo ≤ mid → StartsBetween mid hi xs → StartsBetween lo hi xs
unfolding StartsBetween
StartsBetween-weaken lo mid hi [] h b = omega arith
StartsBetween-weaken lo mid hi (x ∷ xs) h b = (omega (arith, b.0), b.1)

ends_last-Between : (m : Mode) (i : ℕ) → StartsBetween i i (ends_last m i)
unfolding ends_last StartsBetween
ends_last-Between Mode.outside i = omega arith
ends_last-Between Mode.marks i = omega arith
ends_last-Between Mode.spaces i = (omega arith, omega arith)
ends_last-Between Mode.breaks i = (omega arith, omega arith)

ends-Between :
    (m : Mode) (i hi : ℕ) (text : Text)
    → hi ≡ i + length text
    → StartsBetween i hi (boundary_ends m i text)
unfolding boundary_ends StartsBetween
ends-Between m i hi [] e =
    let same : i ≡ hi = omega (arith, e) in
    subst (λ x. StartsBetween i x (ends_last m i)) same (ends_last-Between m i)
ends-Between m i hi (c ∷ s) e =
    let rest = ends-Between (next_mode m c) (suc i) hi s (omega (arith, e)) in
    let lower =
      StartsBetween-weaken i (suc i) hi (boundary_ends (next_mode m c) (suc i) s) (omega arith)
        rest in
    elim (Bool-cases (ends_before m c)) [
      | inl ends ↦ rw ends (omega arith, lower)
      | inr goes_on ↦ rw goes_on lower
    ]

empty_slice :
    (start stop : ℕ) (text : Text) → leb stop start ≡ true → is_blank (slice start stop text) ≡ true
unfolding slice is_blank
empty_slice start stop text h =
    let none_left : stop - start ≡ 0 = ground (arith, h) in rw none_left refl

sentences-segments :
    (text : Text) (idx : ℕ) (starts : List ℕ)
    → map (λ s. s.text) (sentences_from text idx starts)
      ≡ select (λ s. not (is_blank s)) (segments text starts)
unfolding sentences_from segments
sentences-segments text idx [] = refl
sentences-segments text idx (start ∷ more) =
    let stop = next_start text more in
    elim (Bool-cases (is_blank (slice start stop text))) [
      | inl blank ↦ ground (arith, blank, sentences-segments text idx more)
      | inr kept ↦ elim (Bool-cases (leb stop start)) [
        | inl empty ↦ absurd (ground (arith, kept, empty_slice start stop text empty))
        | inr longer ↦
            rw (kept, longer)
              (ap (λ rest. slice start stop text ∷ rest) (sentences-segments text (idx + 1) more))
      ]
    ]

-- The sentences of a text are its pieces between the boundaries that are not blank, in order, and
-- the pieces together are the text: nothing but white space is left out, and nothing is repeated.
pub split_sentences-segments :
    (text : Text)
    → let pieces = segments text (0 ∷ boundary_ends Mode.outside 0 text) in
      (map (λ s. s.text) (split_sentences text) ≡ select (λ s. not (is_blank s)) pieces)
      × (concat pieces ≡ text)
unfolding split_sentences
split_sentences-segments text = (
  sentences-segments text 0 (0 ∷ boundary_ends Mode.outside 0 text),
  segments-text text 0 (boundary_ends Mode.outside 0 text)
      (ends-Between Mode.outside 0 (length text) text (omega arith)),
)
