-- ===== src/Api.antt =====
-- internal/api/server.go, internal/api/dto.go, internal/api/helpers.go: the handlers. A response is
-- its status code and its body, before it is rendered as JSON.
mod Requests
pub mod Submission
pub mod Lookup
pub mod Routes
pub mod Served
pub use Requests.{ProcessRequest, QueryString}
unfoldable pub use Requests.{decode_process, rerun_mode, query_int, token_filter_from_query}
use sayari.Prelude.{
  ℕ, zero, suc, ◌==◌, Bool, true, false, ◌||◌, Option, none, some, List, [], ◌∷◌, Text, codes,
  length, ltb, if◌then◌else◌, ℤ,
}
use sayari.Strings.{is_blank}
use sayari.Json.{Payload}
use sayari.Domain.{Document, Token, TokenFilter}
use sayari.Domain.Labels.{doc_status_text}
use sayari.Domain.Durations.{durations}
use sayari.Store.{Db}
use sayari.Store.Tx.{Error, Result, ok, err, not_found}
use sayari.Store.Documents.{get_document}
use sayari.Store.Query.{list_tokens}
use sayari.Service.{SubmitResult, submit}
use sayari.Pipeline.Extraction.{Conn}

pub record ProcessResponse : Type 0 where
  pub document_id : Text
  pub status : Text
  pub run_version : ℕ
  pub accepted : Bool
  pub message : Text

-- The operands of the percentage and the durations in nanoseconds stand for the rounded floats.
pub record StatusResponse : Type 0 where
  pub document_id : Text
  pub status : Text
  pub run_version : ℕ
  pub classified : ℕ
  pub total : ℕ
  pub percent : Option (ℕ × ℕ)
  pub durations : ℤ × ℤ
  pub extraction_started_at : Option ℕ
  pub extraction_completed_at : Option ℕ
  pub classification_started_at : Option ℕ
  pub classification_completed_at : Option ℕ
  pub created_at : ℕ
  pub updated_at : ℕ

pub record TokensResponse : Type 0 where
  pub document_id : Text
  pub count : ℕ
  pub tokens : List Token

pub data Body : Type 0 where
  error_text : Text → Body
  process_body : ProcessResponse → Body
  status_body : StatusResponse → Body
  tokens_body : TokensResponse → Body
  health_body : Text → Body
  plain_text : Text → Body

pub record Response : Type 0 where
  pub code : ℕ
  pub body : Body

abbrev pub write_json : ℕ → Body → Response
write_json code body = record { code = code; body = body }

abbrev pub write_error : ℕ → Text → Response
write_error code msg = write_json code (error_text msg)

submit_message : SubmitResult → Text
submit_message res =
    if res.accepted
    then (if res.full_rerun
        then codes "accepted for full reprocessing"
        else codes "accepted for processing")
    else codes "already completed; resubmit with mode=full to reprocess"

unfoldable pub new_process_response : SubmitResult → ProcessResponse
unfolding submit_message
new_process_response res = record {
  document_id = res.document.id;
  status = doc_status_text res.document.status;
  run_version = res.document.run_version;
  accepted = res.accepted;
  message = submit_message res;
}

unfoldable pub new_status_response : Document → StatusResponse
unfolding durations
new_status_response doc = record {
  document_id = doc.id;
  status = doc_status_text doc.status;
  run_version = doc.run_version;
  classified = doc.classified_count;
  total = doc.total_tokens;
  percent = if ltb 0 doc.total_tokens then some (doc.classified_count, doc.total_tokens) else none;
  durations = durations doc;
  extraction_started_at = doc.extraction_started_at;
  extraction_completed_at = doc.extraction_completed_at;
  classification_started_at = doc.classification_started_at;
  classification_completed_at = doc.classification_completed_at;
  created_at = doc.created_at;
  updated_at = doc.updated_at;
}

process_answer : Result SubmitResult × Db → Response × Db
unfolding new_process_response
process_answer (err e, d) = (write_error 500 (codes "could not accept document"), d)
process_answer (ok res, d) = (write_json 202 (process_body (new_process_response res)), d)

unfoldable pub process_decoded : Conn → Option ProcessRequest → Db → Response × Db
unfolding process_answer
process_decoded c none d = (write_error 400 (codes "invalid JSON body"), d)
process_decoded c (some req) d =
    if is_blank req.document_id || is_blank req.text
    then (write_error 400 (codes "document_id and text are required"), d)
    else process_answer (submit c.link c.now req.document_id req.text (rerun_mode req) d)

-- `Server.handleProcess`.
unfoldable pub handle_process : Conn → Payload → Db → Response × Db
unfolding process_decoded
handle_process c body d = process_decoded c (decode_process body) d

-- `DocumentService.Status`.
unfoldable pub status_of : Conn → Text → Db → Result Document × Db
status_of c id d = get_document c.link c.now id d

unfoldable pub tokens_after :
    Conn → Text → TokenFilter → Result Document × Db → Result (List Token) × Db
tokens_after c id f (err e, d) = (err e, d)
tokens_after c id f (ok doc, d) = list_tokens c.link c.now id f d

-- `DocumentService.Tokens`: two statements, each over a connection of its own, and `others` is what
-- happens to the tables between them.
unfoldable pub tokens_of :
    (Db → Db) → Conn → Conn → Text → TokenFilter → Db → Result (List Token) × Db
unfolding tokens_after
tokens_of others c1 c2 id f d =
    let (r, d') = get_document c1.link c1.now id d in tokens_after c2 id f (r, others d')

unfoldable pub status_answer : Result Document → Response
unfolding new_status_response
status_answer (err not_found) = write_error 404 (codes "document not found")
status_answer (err e) = write_error 500 (codes "lookup failed")
status_answer (ok doc) = write_json 200 (status_body (new_status_response doc))

-- `Server.handleStatus`.
unfoldable pub handle_status : Conn → Text → Db → Response × Db
unfolding status_answer
handle_status c id d = let (r, d') = status_of c id d in (status_answer r, d')

unfoldable pub tokens_answer : Text → Result (List Token) → Response
tokens_answer id (err not_found) = write_error 404 (codes "document not found")
tokens_answer id (err e) = write_error 500 (codes "query failed")
tokens_answer id (ok ts) =
    write_json 200 (tokens_body (record { document_id = id; count = length ts; tokens = ts }))

-- `Server.handleTokens`.
unfoldable pub handle_tokens :
    (Text → Text) → (Db → Db) → Conn → Conn → Text → QueryString → Db → Response × Db
unfolding tokens_answer
handle_tokens to_upper others c1 c2 id q d =
    let (r, d') = tokens_of others c1 c2 id (token_filter_from_query to_upper q) d in
    (tokens_answer id r, d')
