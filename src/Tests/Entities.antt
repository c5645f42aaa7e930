-- ===== src/Tests/Entities.antt =====
-- internal/nlp/mock.go at concrete texts.
use sayari.Prelude.{
  ℕ, ◌≡◌, refl, true, false, not, List, [], ◌∷◌, Text, codes, text_eq, select, map,
}
use sayari.Strings.{trim_dots, fields, trim_space, rune_count, is_blank}
use sayari.Nlp.{
  Rule, find_spans, try_matches, try_match, occupied, add_span, extract, extract_sentences,
  char_offset,
}
use sayari.Nlp.Words.{is_all_role_words, contains_non_name_word}
use sayari.Nlp.Sentences.{Mode, slice, split_sentences, boundary_ends}
use sayari.Nlp.Disjoint.{AllApart, find_spans-AllApart}
use sayari.Nlp.Sorted.{Ascends, at_key, extract-Ascends}
use sayari.Nlp.Partition.{segments, concat, split_sentences-segments}
use sayari.Nlp.Located.{Located, split_sentences-Located}
use sayari.Tests.{submitted}

abbrev report : Text
report = codes "Acme Corp pays... Now!\n\nMr. A joins"

split_report :
    map (λ s. s.text) (split_sentences report)
    ≡ codes "Acme Corp pays... " ∷ codes "Now!\n\n" ∷ codes "Mr. " ∷ codes "A joins" ∷ []
unfolding split_sentences is_blank
split_report = refl

words_read : fields (codes "  Vice\tPresident ") ≡ codes "Vice" ∷ codes "President" ∷ []
unfolding fields
words_read = refl

titles_read : is_all_role_words (codes "Vice President") ≡ true
unfolding is_all_role_words fields text_eq
titles_read = refl

headline_read : contains_non_name_word (codes "Jane Joins Acme") ≡ true
unfolding contains_non_name_word fields text_eq
headline_read = refl

trimmed : trim_space (codes " a b \n") ≡ codes "a b"
unfolding trim_space is_blank
trimmed = refl

-- "é" is two bytes.
runes_counted : rune_count (195 ∷ 169 ∷ 97 ∷ []) ≡ 2
unfolding rune_count
runes_counted = refl

-- Two rules whose matches overlap in "Acme Corp pays": the first wins.
abbrev rules : List Rule
rules =
    record { name_like = false; find_all = λ s. (0, 9) ∷ [] }
    ∷ record { name_like = true; find_all = λ s. (5, 14) ∷ (10, 14) ∷ [] }
    ∷ []

spans_found :
    map (λ sp. sp.text) (find_spans rules (codes "Acme Corp pays") [])
    ≡ codes "Acme Corp" ∷ codes "pays" ∷ []
unfolding find_spans try_matches try_match occupied add_span is_blank trim_space trim_dots slice
    is_all_role_words contains_non_name_word fields text_eq
spans_found = refl

find_spans-AllApart_example : AllApart (find_spans rules (codes "Acme Corp pays") [])
find_spans-AllApart_example = find_spans-AllApart rules (codes "Acme Corp pays") [] tt

extract-Ascends_example :
    Ascends char_offset 0 (extract rules submitted)
    × ((k : ℕ)
        → at_key char_offset k (extract rules submitted)
          ≡ at_key char_offset k (extract_sentences rules (split_sentences submitted.text)))
extract-Ascends_example = extract-Ascends rules submitted

split_sentences-segments_example :
    let pieces = segments report (0 ∷ boundary_ends Mode.outside 0 report) in
    (map (λ s. s.text) (split_sentences report) ≡ select (λ s. not (is_blank s)) pieces)
    × (concat pieces ≡ report)
split_sentences-segments_example = split_sentences-segments report

split_sentences-Located_example : Located report 0 (split_sentences report)
split_sentences-Located_example = split_sentences-Located report
