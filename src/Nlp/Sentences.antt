-- ===== src/Nlp/Sentences.antt =====
-- internal/nlp/mock.go: `splitSentences`. The pattern `[.!?]+\s+|\n+` is read by an automaton: its
-- matches are runs of end marks with the white space after them, and runs of line breaks.
use sayari.Prelude.{
  ℕ, suc, ◌+◌, ◌-◌, ◌==◌, Bool, true, false, ◌||◌, leb, List, [], ◌∷◌, Text, take, drop, length,
  if◌then◌else◌,
}
use sayari.Strings.{is_blank, rune_count}

pub record Sentence : Type 0 where
  pub text : Text
  pub index : ℕ
  pub rune_start : ℕ
  pub doc_prefix : Text

-- Outside a match; after end marks; in the white space after them; in line breaks.
pub data Mode : Type 0 where
  outside marks spaces breaks : Mode

is_mark : ℕ → Bool
is_mark c = c == b'.' || (c == b'!' || c == b'?')

-- `\s`.
is_white : ℕ → Bool
is_white c = (c == 9 || c == 10) || (c == 12 || (c == 13 || c == 32))

from_outside : ℕ → Mode
unfolding is_mark
from_outside c = if is_mark c then marks else if c == 10 then breaks else outside

unfoldable pub next_mode : Mode → ℕ → Mode
unfolding from_outside is_white
next_mode outside c = from_outside c
next_mode marks c = if is_white c then spaces else from_outside c
next_mode spaces c = if is_white c then spaces else from_outside c
next_mode breaks c = from_outside c

-- A match ends before this character.
unfoldable pub ends_before : Mode → ℕ → Bool
unfolding is_white
ends_before outside c = false
ends_before marks c = false
ends_before spaces c = if is_white c then false else true
ends_before breaks c = if c == 10 then false else true

-- A match that the text's end closes.
unfoldable pub ends_last : Mode → ℕ → List ℕ
ends_last outside i = []
ends_last marks i = []
ends_last spaces i = i ∷ []
ends_last breaks i = i ∷ []

-- The ends of the matches, from position `i`.
unfoldable pub boundary_ends : Mode → ℕ → Text → List ℕ
unfolding next_mode ends_before ends_last
boundary_ends m i [] = ends_last m i
boundary_ends m i (c ∷ s) =
    let rest = boundary_ends (next_mode m c) (suc i) s in if ends_before m c then i ∷ rest else rest

-- `text[start:stop]`, where start ≤ stop.
unfoldable pub slice : ℕ → ℕ → Text → Text
slice start stop text = take (stop - start) (drop start text)

unfoldable pub next_start : Text → List ℕ → ℕ
next_start text [] = length text
next_start text (start ∷ more) = start

-- The loop over the starts, at the sentence number `idx`.
unfoldable pub sentences_from : Text → ℕ → List ℕ → List Sentence
unfolding slice next_start
sentences_from text idx [] = []
sentences_from text idx (start ∷ more) =
    let stop = next_start text more in
    let skipped = sentences_from text idx more in
    let kept = sentences_from text (idx + 1) more in
    if leb stop start || is_blank (slice start stop text)
    then skipped
    else record {
      text = slice start stop text;
      index = idx;
      rune_start = rune_count (take start text);
      doc_prefix = take start text;
    }
      ∷ kept

unfoldable pub split_sentences : Text → List Sentence
unfolding sentences_from boundary_ends
split_sentences text = sentences_from text 0 (0 ∷ boundary_ends outside 0 text)
