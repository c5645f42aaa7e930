-- ===== src/Json.antt =====
-- The JSON documents that cross the broker, after lexing: encoding/json's view of the structs of
-- internal/pipeline/jobs.go. Numbers are naturals, as every producer of the program writes.
use sayari.Prelude.{
  ℕ, ◌-◌, ◌==◌, Bool, true, false, ◌&&◌, leb, Text, text_eq, Option, none, some, List, [], ◌∷◌,
  drop, if◌then◌else◌,
}

-- `other` is a value that fits neither a string nor an int field: a boolean, an array, an object,
-- a fraction.
pub data Value : Type 0 where
  null other : Value
  num : ℕ → Value
  str : Text → Value

-- The body of a message: an object with its members in order, the literal `null`, a document of
-- another type, or bytes that are no JSON.
pub data Payload : Type 0 where
  object : List (Text × Value) → Payload
  null_document other_document malformed : Payload

-- A member fits a field whose name differs only in the case of its letters.
upper : ℕ → ℕ
upper c = if leb b'a' c && leb c b'z' then c - 32 else c

starts : Text → Text → Bool
starts [] s = true
starts (b ∷ bs) [] = false
starts (b ∷ bs) (c ∷ s) = let rest = starts bs s in c == b && rest

-- The first letter of a text: U+017F folds to S and U+212A, the Kelvin sign, to K. `rest` is the
-- fold of what follows.
fold_at : ℕ → Text → Text → Text
unfolding upper starts
fold_at c s rest =
    if c == 197 && starts (191 ∷ []) s
    then b'S' ∷ drop 1 rest
    else if c == 226 && starts (132 ∷ 170 ∷ []) s
    then b'K' ∷ drop 2 rest
    else upper c ∷ rest

fold_case : Text → Text
unfolding fold_at
fold_case [] = []
fold_case (c ∷ s) = let rest = fold_case s in fold_at c s rest

unfoldable pub names : Text → Text → Bool
unfolding fold_case
names field name = text_eq (fold_case field) (fold_case name)

-- A string field: `null` leaves it alone, another type is an error.
unfoldable pub set_text : Text → Value → Option Text
set_text old Value.null = some old
set_text old (Value.str s) = some s
set_text old _ = none

unfoldable pub set_int : ℕ → Value → Option ℕ
set_int old Value.null = some old
set_int old (Value.num n) = some n
set_int old _ = none

fold_members :
    {J : Type 0} → (J → Text → Value → Option J) → Option J → List (Text × Value) → Option J
fold_members put job [] = job
fold_members put none (m ∷ ms) = none
fold_members put (some job) ((name, v) ∷ ms) = fold_members put (put job name v) ms

-- `json.Unmarshal` into a zero struct.
unfoldable pub decode_into : {J : Type 0} → (J → Text → Value → Option J) → J → Payload → Option J
unfolding fold_members
decode_into put zero_job (object ms) = fold_members put (some zero_job) ms
decode_into put zero_job null_document = some zero_job
decode_into put zero_job other_document = none
decode_into put zero_job malformed = none
