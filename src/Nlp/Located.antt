-- ===== src/Nlp/Located.antt =====
-- internal/nlp/mock.go: the numbers and offsets that `splitSentences` gives its sentences.
use sayari.Prelude.{
  ℕ, ◌+◌, ◌-◌, ◌≡◌, refl, sym, ap, ◌∙◌, inl, inr, false, leb, List, [], ◌∷◌, ◌++◌, Text, take, drop,
  take-append-drop, Bool-cases,
}
use sayari.Strings.{is_blank, rune_count}
use sayari.Nlp.Sentences.{
  Sentence, Mode, split_sentences, sentences_from, slice, boundary_ends, next_start,
}

-- The sentence stands in the text after its prefix, and its offset counts the prefix's characters.
abbrev pub StandsIn : Text → Sentence → Type 0
StandsIn text s =
    ((rest : Text) × (text ≡ s.doc_prefix ++ (s.text ++ rest)))
    × (s.rune_start ≡ rune_count s.doc_prefix)

-- The sentences are numbered from `n`, and each stands in the text and is not blank.
abbrev pub Located : Text → ℕ → List Sentence → Type 0
Located text n [] = Unit
Located text n (s ∷ ss) =
    (s.index ≡ n) × (is_blank s.text ≡ false) × StandsIn text s × Located text (n + 1) ss

slice-stands :
    (start stop : ℕ) (text : Text)
    → text ≡ take start text ++ (slice start stop text ++ drop (stop - start) (drop start text))
unfolding slice
slice-stands start stop text = sym (
    ap (λ rest. take start text ++ rest) (take-append-drop (stop - start) (drop start text))
    ∙ take-append-drop start text)

sentences-Located :
    (text : Text) (n : ℕ) (starts : List ℕ) → Located text n (sentences_from text n starts)
unfolding sentences_from
sentences-Located text n [] = tt
sentences-Located text n (start ∷ more) =
    let stop = next_start text more in
    elim (Bool-cases (leb stop start)) [
      | inl empty ↦ rw empty (sentences-Located text n more)
      | inr longer ↦ elim (Bool-cases (is_blank (slice start stop text))) [
        | inl blank ↦ rw (longer, blank) (sentences-Located text n more)
        | inr kept ↦
            rw (longer, kept)
              (
                refl,
                kept,
                ((drop (stop - start) (drop start text), slice-stands start stop text), refl),
                sentences-Located text (n + 1) more,
              )
      ]
    ]

-- The sentences of a text are numbered from 0, none is blank, each stands in the text directly after
-- its prefix, and its offset is the number of characters of that prefix.
pub split_sentences-Located : (text : Text) → Located text 0 (split_sentences text)
unfolding split_sentences
split_sentences-Located text = sentences-Located text 0 (0 ∷ boundary_ends Mode.outside 0 text)
