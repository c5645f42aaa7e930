-- ===== src/Llm/Reading.antt =====
-- internal/llm/ollama.go: how the reply of the model is read, after lexing. A number is the bit
-- pattern of its float64; encoding/json gives no NaN.
use sayari.Prelude.{◌^◌, leb, ltb, Option, none, some, [], Text, codes, if◌then◌else◌}
use sayari.Json.{names}
use sayari.Domain.{Float}

-- A JSON document; `flag` is true or false, and an array's elements are never read.
mutual
  pub data Json : Type 0 where
    null flag array : Json
    number : Float → Json
    string : Text → Json
    object : Members → Json

  pub data Members : Type 0 where
    end : Members
    member : Text → Json → Members → Members

-- A value into a string field and into a float64 field: null leaves it alone.
unfoldable pub into_text : Text → Json → Option Text
into_text old Json.null = some old
into_text old (Json.string s) = some s
into_text old _ = none

unfoldable pub into_float : Float → Json → Option Float
into_float old Json.null = some old
into_float old (Json.number x) = some x
into_float old _ = none

-- The members into a struct, in order: `put` is what one of them does.
fold_into : {A : Type 0} → (A → Text → Json → Option A) → Option A → Members → Option A
fold_into put none ms = none
fold_into put (some a) Members.end = some a
fold_into put (some a) (Members.member name v ms) = fold_into put (put a name v) ms

-- An object, or null, into a struct.
unfoldable pub into_struct : {A : Type 0} → (A → Text → Json → Option A) → A → Json → Option A
unfolding fold_into
into_struct put old Json.null = some old
into_struct put old (Json.object ms) = fold_into put (some old) ms
into_struct put old _ = none

pub record ChatMessage : Type 0 where
  pub role : Text
  pub content : Text

abbrev pub no_message : ChatMessage
no_message = record { role = []; content = [] }

with_role : ChatMessage → Option Text → Option ChatMessage
with_role m none = none
with_role m (some s) = some (record m { role = s })

with_content : ChatMessage → Option Text → Option ChatMessage
with_content m none = none
with_content m (some s) = some (record m { content = s })

unfoldable pub put_message : ChatMessage → Text → Json → Option ChatMessage
unfolding with_role with_content into_text
put_message m name v =
    if names (codes "role") name
    then with_role m (into_text m.role v)
    else if names (codes "content") name
    then with_content m (into_text m.content v)
    else some m

-- `chatResponse` has the one field `message`.
unfoldable pub put_response : ChatMessage → Text → Json → Option ChatMessage
unfolding into_struct
put_response m name v = if names (codes "message") name then into_struct put_message m v else some m

-- `classificationJSON`.
pub record ModelAnswer : Type 0 where
  pub category : Text
  pub confidence : Float
  pub reasoning : Text

abbrev pub no_answer : ModelAnswer
no_answer = record { category = []; confidence = 0; reasoning = [] }

with_category : ModelAnswer → Option Text → Option ModelAnswer
with_category a none = none
with_category a (some s) = some (record a { category = s })

with_reasoning : ModelAnswer → Option Text → Option ModelAnswer
with_reasoning a none = none
with_reasoning a (some s) = some (record a { reasoning = s })

with_confidence : ModelAnswer → Option Float → Option ModelAnswer
with_confidence a none = none
with_confidence a (some x) = some (record a { confidence = x })

unfoldable pub put_answer : ModelAnswer → Text → Json → Option ModelAnswer
unfolding with_category with_confidence with_reasoning into_text into_float
put_answer a name v =
    if names (codes "category") name
    then with_category a (into_text a.category v)
    else if names (codes "confidence") name
    then with_confidence a (into_float a.confidence v)
    else if names (codes "reasoning") name
    then with_reasoning a (into_text a.reasoning v)
    else some a

-- `json.Unmarshal` into the two structs: `none` is an error. The bytes may be no JSON.
read_struct : {A : Type 0} → (A → Text → Json → Option A) → A → Option Json → Option A
read_struct put zero_struct none = none
read_struct put zero_struct (some v) = into_struct put zero_struct v

unfoldable pub read_response : Option Json → Option ChatMessage
unfolding read_struct
read_response = read_struct put_response no_message

unfoldable pub read_answer : Option Json → Option ModelAnswer
unfolding read_struct
read_answer = read_struct put_answer no_answer

-- The bit pattern of 1.0; one with the sign bit is of a number that is not positive.
abbrev pub one_bits : Float
one_bits = 4607182418800017408

-- `math.Max(0, math.Min(1, x))`.
unfoldable pub clamp : Float → Float
clamp x = if leb (2 ^ 63) x then 0 else if ltb one_bits x then one_bits else x
