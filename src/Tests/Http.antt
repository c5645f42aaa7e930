-- ===== src/Tests/Http.antt =====
-- The handlers of internal/api at concrete requests.
use sayari.Prelude.{
  ◌≡◌, refl, pos, negsuc, some, none, List, [], ◌∷◌, Text, text_eq, codes, length, count_where,
  if◌then◌else◌,
}
use sayari.Json.{Payload, Value, object}
use sayari.Store.Documents.{belongs_to}
use sayari.System.Counts.{classified_of}
use sayari.Api.{
  handle_process, handle_status, handle_tokens, status_body, tokens_body, write_json, write_error,
  new_status_response, QueryString, token_filter_from_query,
}
use sayari.Api.Routes.{Circumstances, Request, is_get, handler}
use sayari.Api.Served.{Served, handler-Served}
use sayari.Api.Submission.{Answered, process-Answered}
use sayari.Api.Lookup.{rows_wanted, status_missing, tokens_missing, status_found, tokens_found}
use sayari.World.{start}
use sayari.World.Safety.{run-start-IsSafe}
use sayari.Tests.{doc_id, body, conn, broken, done, life, done_db, done_found}

abbrev post : Payload
post = object (
    (codes "document_id", Value.str doc_id)
    ∷ (codes "text", Value.str body)
    ∷ (codes "mode", Value.str (codes "full"))
    ∷ [])

process-Answered_example : Answered 5 post done_db (handle_process (conn 5) post done_db)
process-Answered_example = process-Answered (conn 5) post done_db

abbrev unknown : Text
unknown = codes "x"

unknown_missing : start.db.documents unknown ≡ none
unknown_missing = refl

status_missing_example : (handle_status (conn 5) unknown start.db).0.code ≡ 500
status_missing_example = status_missing (conn 5) unknown start.db unknown_missing

abbrev by_page : QueryString
by_page key =
    if text_eq key (codes "page")
    then codes "1"
    else if text_eq key (codes "limit")
    then codes "-3"
    else []

filter_read : token_filter_from_query (λ s. s) by_page ≡ record {
  classification = none;
  status = none;
  page = some (pos 1);
  limit = negsuc 2;
  offset = pos 0;
}
unfolding token_filter_from_query text_eq
filter_read = refl

no_tokens_of_missing :
    (handle_tokens (λ s. s) (λ d. d) (conn 5) (broken 6) unknown by_page start.db).0.code ≡ 500
no_tokens_of_missing =
    tokens_missing (λ s. s) (λ d. d) (conn 5) (broken 6) unknown by_page start.db unknown_missing

status_found_example :
    (handle_status (conn 5) doc_id done_db
      ≡ (write_json 200 (status_body (new_status_response done)), done_db))
    × ((new_status_response done).total ≡ count_where (belongs_to doc_id) done_db.tokens)
    × ((new_status_response done).classified ≡ count_where (classified_of doc_id) done_db.tokens)
status_found_example =
    status_found 5 doc_id done_db done (run-start-IsSafe life).consistent done_found

tokens_found_example :
    let rows = rows_wanted (token_filter_from_query (λ s. s) by_page) doc_id done_db in
    handle_tokens (λ s. s) (λ d. d) (conn 5) (conn 6) doc_id by_page done_db ≡ (
      write_json 200
          (tokens_body (record { document_id = doc_id; count = length rows; tokens = rows })),
      done_db,
    )
tokens_found_example = tokens_found (λ s. s) (λ d. d) 5 6 doc_id by_page done_db done done_found

abbrev calm : Circumstances
calm = record {
  to_upper = λ s. s;
  first = conn 5;
  second = conn 6;
  others = λ d. d;
  postgres = none;
  broker = some (codes "down");
}

abbrev asks : Text → List Text → Request
asks method path = record { method = method; path = path; query = by_page; body = post }

unhealthy :
    (handler calm (asks (codes "GET") (codes "healthz" ∷ [])) done_db).0.0
    ≡ write_error 503 (codes "broker: down")
unfolding handler text_eq is_get
unhealthy = refl

not_allowed : (handler calm (asks (codes "GET") (codes "process" ∷ [])) done_db).1.status ≡ 405
unfolding handler text_eq is_get
not_allowed = refl

handler-Served_example :
    Served calm
      (asks (codes "POST") (codes "process" ∷ []))
      done_db
      (handler calm (asks (codes "POST") (codes "process" ∷ [])) done_db).0
    × ((handler calm (asks (codes "POST") (codes "process" ∷ [])) done_db).1.status
        ≡ (handler calm (asks (codes "POST") (codes "process" ∷ [])) done_db).0.0.code)
handler-Served_example = handler-Served calm (asks (codes "POST") (codes "process" ∷ [])) done_db
