-- ===== src/Api/Requests.antt =====
-- internal/api/dto.go and internal/api/helpers.go: what is read of a request.
use sayari.Prelude.{Option, none, some, [], ◌∷◌, Text, codes, text_eq, if◌then◌else◌, ℤ, pos}
use sayari.Strings.{atoi}
use sayari.Json.{Value, Payload, names, set_text, decode_into}
use sayari.Domain.{TokenFilter, RerunMode}

pub record ProcessRequest : Type 0 where
  pub document_id : Text
  pub text : Text
  pub mode : Text

request : Option Text → Option Text → Option Text → Option ProcessRequest
request (some id) (some text) (some mode) =
    some (record { document_id = id; text = text; mode = mode })
request _ _ _ = none

put_process : ProcessRequest → Text → Value → Option ProcessRequest
unfolding request
put_process req name v =
    if names (codes "document_id") name
    then request (set_text req.document_id v) (some req.text) (some req.mode)
    else if names (codes "text") name
    then request (some req.document_id) (set_text req.text v) (some req.mode)
    else if names (codes "mode") name
    then request (some req.document_id) (some req.text) (set_text req.mode v)
    else some req

-- `json.Decode` of the body into a `processRequest`.
unfoldable pub decode_process : Payload → Option ProcessRequest
unfolding put_process
decode_process = decode_into put_process (record { document_id = []; text = []; mode = [] })

unfoldable pub rerun_mode : ProcessRequest → RerunMode
rerun_mode req = if text_eq req.mode (codes "full") then RerunMode.full else RerunMode.partial

-- `url.Values.Get`: the first value of a key, or the empty string.
abbrev pub QueryString : Type 0
QueryString = Text → Text

or_default : Option ℤ → ℤ → ℤ
or_default none default = default
or_default (some n) default = n

unfoldable pub query_int : QueryString → Text → ℤ → ℤ
unfolding atoi or_default
query_int q key default = or_default (atoi (q key)) default

unless_empty {κ} : {A : Type κ} → Text → (Text → Option A) → Option A
unless_empty [] f = none
unless_empty (c ∷ s) f = f (c ∷ s)

-- `tokenFilterFromQuery`; `to_upper` is strings.ToUpper, by the tables of Unicode.
unfoldable pub token_filter_from_query : (Text → Text) → QueryString → TokenFilter
unfolding query_int unless_empty
token_filter_from_query to_upper q = record {
  classification = unless_empty (q (codes "classification")) (λ v. some (to_upper v));
  status = unless_empty (q (codes "status")) (λ v. some (to_upper v));
  page = unless_empty (q (codes "page")) atoi;
  limit = query_int q (codes "limit") (pos 0);
  offset = query_int q (codes "offset") (pos 0);
}
