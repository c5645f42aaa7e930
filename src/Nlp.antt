-- ===== src/Nlp.antt =====
-- internal/nlp/mock.go: the rule-based extractor. A rule's pattern is a parameter: what
-- FindAllStringIndex answers for it.
pub mod Sentences
pub mod Words
pub mod Disjoint
pub mod Sorted
pub mod Partition
pub mod Located
use sayari.Prelude.{
  ℕ, suc, ◌+◌, Bool, true, false, ◌&&◌, ◌||◌, ltb, leb, List, [], ◌∷◌, ◌++◌, Text, take,
  if◌then◌else◌, map,
}
use sayari.Strings.{trim_space, trim_dots, rune_count}
use sayari.Domain.{Document, Entity, Position}
use Sentences.{Sentence, split_sentences, slice}
use Words.{is_all_role_words, contains_non_name_word}

pub record Rule : Type 0 where
  pub name_like : Bool
  pub find_all : Text → List (ℕ × ℕ)

-- Byte offsets within the sentence.
pub record Span : Type 0 where
  pub start : ℕ
  pub stop : ℕ
  pub text : Text

abbrev pub overlaps : ℕ → ℕ → Span → Bool
overlaps start stop sp = ltb start sp.stop && ltb sp.start stop

unfoldable pub occupied : List Span → ℕ → ℕ → Bool
occupied [] start stop = false
occupied (sp ∷ spans) start stop = overlaps start stop sp || occupied spans start stop

unfoldable pub add_span : Rule → Text → ℕ → ℕ → List Span → List Span
add_span r [] start stop spans = spans
add_span r (c ∷ s) start stop spans =
    if r.name_like && (is_all_role_words (c ∷ s) || contains_non_name_word (c ∷ s))
    then spans
    else spans ++ record { start = start; stop = stop; text = c ∷ s } ∷ []

-- One match of a rule.
unfoldable pub try_match : Rule → Text → ℕ × ℕ → List Span → List Span
try_match r s (start, stop) spans =
    if occupied spans start stop
    then spans
    else add_span r (trim_dots (trim_space (slice start stop s))) start stop spans

unfoldable pub try_matches : Rule → Text → List (ℕ × ℕ) → List Span → List Span
try_matches r s [] spans = spans
try_matches r s (m ∷ ms) spans = try_matches r s ms (try_match r s m spans)

-- The rules in their order of priority.
unfoldable pub find_spans : List Rule → Text → List Span → List Span
find_spans [] s spans = spans
find_spans (r ∷ rs) s spans = find_spans rs s (try_matches r s (r.find_all s) spans)

-- `sort.SliceStable` by a key: equal keys keep their order.
module _ {A : Type 0} (key : A → ℕ) where
  unfoldable pub insert_by : A → List A → List A
  insert_by x [] = x ∷ []
  insert_by x (y ∷ ys) =
      let rest = insert_by x ys in if leb (key x) (key y) then x ∷ y ∷ ys else y ∷ rest

  unfoldable pub sort_by : List A → List A
  sort_by [] = []
  sort_by (x ∷ xs) = insert_by x (sort_by xs)

-- `strings.Count(prefix, "\f")`, from 1.
unfoldable pub page_for_offset : Text → ℕ
page_for_offset [] = 1
page_for_offset (c ∷ s) =
    let rest = page_for_offset s in if leb 12 c && leb c 12 then suc rest else rest

entity_of : Sentence → Span → Entity
unfolding page_for_offset
entity_of s sp = record {
  text = sp.text;
  context = trim_space s.text;
  position = record {
    page = page_for_offset s.doc_prefix;
    sentence = s.index;
    char_offset = s.rune_start + rune_count (take sp.start s.text);
  };
}

-- `extractSentence`. The spans do not overlap, so their starts differ and sort.Slice has one answer.
unfoldable pub extract_sentence : List Rule → Sentence → List Entity
unfolding entity_of
extract_sentence rules s = map (entity_of s) (sort_by (λ sp. sp.start) (find_spans rules s.text []))

unfoldable pub extract_sentences : List Rule → List Sentence → List Entity
extract_sentences rules [] = []
extract_sentences rules (s ∷ ss) = extract_sentence rules s ++ extract_sentences rules ss

abbrev pub char_offset : Entity → ℕ
char_offset e = e.position.char_offset

-- `MockExtractor.Extract`.
unfoldable pub extract : List Rule → Document → List Entity
extract rules doc = sort_by char_offset (extract_sentences rules (split_sentences doc.text))
