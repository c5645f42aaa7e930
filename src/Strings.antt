-- ===== src/Strings.antt =====
-- What the program uses of Go's strings, strconv and unicode/utf8, on texts as lists of bytes.
use sayari.Prelude.{
  ℤ, pos, negsuc, Option, none, some, ◌+◌, ◌*◌, ◌^◌, ltb, ℕ, zero, suc, ◌-◌, ◌==◌, Bool, true,
  false, ◌||◌, ◌&&◌, List, [], ◌∷◌, Text, leb, if◌then◌else◌,
}

ascii_space : ℕ → Bool
ascii_space c = (leb 9 c && leb c 13) || c == 32

two_byte_space : ℕ → ℕ → Bool
two_byte_space a b = a == 194 && (b == 133 || b == 160)

three_byte_space : ℕ → ℕ → ℕ → Bool
three_byte_space a b c =
    (a == 225 && (b == 154 && c == 128))
    || ((a == 226 && (b == 128 && (leb 128 c && leb c 138)))
        || ((a == 226 && (b == 128 && (c == 168 || (c == 169 || c == 175))))
            || ((a == 226 && (b == 129 && c == 159)) || (a == 227 && (b == 128 && c == 128)))))

-- `strings.TrimSpace(s) == ""`: every character is a space of Unicode, in UTF-8.
unfoldable pub is_blank : Text → Bool
unfolding ascii_space two_byte_space three_byte_space
is_blank [] = true
is_blank (a ∷ []) = ascii_space a
is_blank (a ∷ b ∷ []) =
    let rest = is_blank (b ∷ []) in (ascii_space a && rest) || two_byte_space a b
is_blank (a ∷ b ∷ c ∷ s) =
    let after_one = is_blank (b ∷ c ∷ s) in
    let after_two = is_blank (c ∷ s) in
    let after_three = is_blank s in
    (ascii_space a && after_one)
    || ((two_byte_space a b && after_two) || (three_byte_space a b c && after_three))

-- The bytes of the first character: 1 where the UTF-8 is invalid, 0 of nothing.
continues : ℕ → Bool
continues c = leb 128 c && leb c 191

two_bytes : ℕ → ℕ → Bool
unfolding continues
two_bytes a b = leb 194 a && (leb a 223 && continues b)

three_bytes : ℕ → ℕ → ℕ → Bool
unfolding continues
three_bytes a b c =
    ((a == 224 && (leb 160 b && leb b 191))
      || (((leb 225 a && leb a 236) && continues b)
          || ((a == 237 && (leb 128 b && leb b 159)) || ((a == 238 || a == 239) && continues b))))
    && continues c

four_bytes : ℕ → ℕ → ℕ → ℕ → Bool
unfolding continues
four_bytes a b c d =
    ((a == 240 && (leb 144 b && leb b 191))
      || (((leb 241 a && leb a 243) && continues b) || (a == 244 && (leb 128 b && leb b 143))))
    && (continues c && continues d)

first_width : Text → ℕ
unfolding two_bytes three_bytes four_bytes
first_width [] = 0
first_width (a ∷ []) = 1
first_width (a ∷ b ∷ []) = if two_bytes a b then 2 else 1
first_width (a ∷ b ∷ c ∷ []) = if two_bytes a b then 2 else if three_bytes a b c then 3 else 1
first_width (a ∷ b ∷ c ∷ d ∷ s) =
    if two_bytes a b
    then 2
    else if three_bytes a b c
    then 3
    else if four_bytes a b c d
    then 4
    else 1

-- `skip` bytes are left of the character that was counted last.
count_runes : ℕ → Text → ℕ
unfolding first_width
count_runes skip [] = 0
count_runes zero (c ∷ s) = suc (count_runes (first_width (c ∷ s) - 1) s)
count_runes (suc skip) (c ∷ s) = count_runes skip s

-- `utf8.RuneCountInString`.
unfoldable pub rune_count : Text → ℕ
unfolding count_runes
rune_count s = count_runes 0 s

-- The bytes of the space that a text starts with, 0 if it starts with none.
space_width : Text → ℕ
unfolding ascii_space two_byte_space three_byte_space
space_width [] = 0
space_width (a ∷ []) = if ascii_space a then 1 else 0
space_width (a ∷ b ∷ []) = if ascii_space a then 1 else if two_byte_space a b then 2 else 0
space_width (a ∷ b ∷ c ∷ s) =
    if ascii_space a
    then 1
    else if two_byte_space a b
    then 2
    else if three_byte_space a b c
    then 3
    else 0

trim_left : ℕ → Text → Text
unfolding space_width
trim_left skip [] = []
trim_left zero (c ∷ s) =
    let rest = trim_left (space_width (c ∷ s) - 1) s in
    if leb 1 (space_width (c ∷ s)) then rest else c ∷ s
trim_left (suc skip) (c ∷ s) = trim_left skip s

trim_right : Text → Text
unfolding is_blank
trim_right [] = []
trim_right (c ∷ s) = let rest = trim_right s in if is_blank (c ∷ s) then [] else c ∷ rest

-- `strings.TrimSpace`.
unfoldable pub trim_space : Text → Text
unfolding trim_left trim_right
trim_space s = trim_right (trim_left 0 s)

only_dots : Text → Bool
only_dots [] = true
only_dots (c ∷ s) = c == b'.' && only_dots s

-- `strings.TrimRight(s, ".")`.
unfoldable pub trim_dots : Text → Text
unfolding only_dots
trim_dots [] = []
trim_dots (c ∷ s) = let rest = trim_dots s in if only_dots (c ∷ s) then [] else c ∷ rest

-- The words so far, newest first, and the word that is being read, reversed.
reverse_onto : {A : Type 0} → List A → List A → List A
reverse_onto [] acc = acc
reverse_onto (x ∷ xs) acc = reverse_onto xs (x ∷ acc)

end_word : Text → List Text → List Text
unfolding reverse_onto
end_word [] words = words
end_word (c ∷ s) words = reverse_onto (c ∷ s) [] ∷ words

split_words : ℕ → Text → Text → List Text → List Text
unfolding end_word reverse_onto space_width
split_words skip [] word words = reverse_onto (end_word word words) []
split_words (suc skip) (c ∷ s) word words = split_words skip s word words
split_words zero (c ∷ s) word words =
    let at_space = split_words (space_width (c ∷ s) - 1) s [] (end_word word words) in
    let in_word = split_words 0 s (c ∷ word) words in
    if leb 1 (space_width (c ∷ s)) then at_space else in_word

-- `strings.Fields`.
unfoldable pub fields : Text → List Text
unfolding split_words
fields s = split_words 0 s [] []

unfoldable pub digits : ℕ → Text → Option ℕ
digits n [] = some n
digits n (c ∷ s) =
    let rest = digits (10 * n + (c - b'0')) s in if leb b'0' c && leb c b'9' then rest else none

unsigned : Text → Option ℕ
unfolding digits
unsigned [] = none
unsigned (c ∷ s) = digits 0 (c ∷ s)

positive : Option ℕ → Option ℤ
positive none = none
positive (some n) = if ltb n (2 ^ 63) then some (pos n) else none

negative : Option ℕ → Option ℤ
negative none = none
negative (some zero) = some (pos 0)
negative (some (suc n)) = if ltb n (2 ^ 63) then some (negsuc n) else none

-- `strconv.Atoi` for a 64-bit int: `none` is an error.
unfoldable pub atoi : Text → Option ℤ
unfolding unsigned positive negative
atoi [] = none
atoi (c ∷ s) =
    if c == b'-'
    then negative (unsigned s)
    else if c == b'+'
    then positive (unsigned s)
    else positive (unsigned (c ∷ s))

has_prefix : Text → Text → Bool
has_prefix [] s = true
has_prefix (c ∷ p) [] = false
has_prefix (c ∷ p) (d ∷ s) = let rest = has_prefix p s in c == d && rest

-- `strings.Contains(s, needle)`.
unfoldable pub contains : Text → Text → Bool
unfolding has_prefix
contains [] needle = has_prefix needle []
contains (c ∷ s) needle = let rest = contains s needle in has_prefix needle (c ∷ s) || rest
