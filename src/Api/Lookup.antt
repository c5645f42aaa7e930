-- ===== src/Api/Lookup.antt =====
-- internal/api/server.go: what the two lookups answer. A missing document is pgx's error in
-- `Store.GetDocument`.
use sayari.Prelude.{
  ℕ, zero, suc, ◌≡◌, refl, Option, none, some, List, Text, count_where, length, select,
}
use sayari.Domain.{Document, Token, TokenFilter}
use sayari.Domain.Labels.{doc_status_text}
use sayari.Store.{Db}
use sayari.Store.Documents.{get_document, belongs_to}
use sayari.Store.Query.{list_tokens, wanted, from, at_most}
use sayari.Store.Query.Filtered.{run_query-build_query}
use sayari.System.Counts.{classified_of}
use sayari.System.Invariant.{IsConsistent}
use sayari.Pipeline.Extraction.{Conn}
use sayari.Api.{
  write_json, status_body, tokens_body, new_status_response, status_of, tokens_of, handle_status,
  handle_tokens, QueryString, token_filter_from_query,
}

-- The status of a document that is missing is answered with 500, over any connection: never 404.
pub status_missing :
    (c : Conn) (id : Text) (d : Db) → d.documents id ≡ none → (handle_status c id d).0.code ≡ 500
unfolding handle_status status_of get_document doc_status_text
status_missing c id d missing = by_link c.link
  where
    by_link : (link : Option ℕ) → (handle_status (record c { link = link }) id d).0.code ≡ 500
    by_link none = rw missing
    by_link (some zero) = refl
    by_link (some (suc n)) = rw missing

-- The tokens of a document that is missing are answered with 500, over any connections, whatever
-- the filter: never 404.
pub tokens_missing :
    (to_upper : Text → Text) (others : Db → Db) (c1 c2 : Conn) (id : Text) (q : QueryString)
    (d : Db)
    → d.documents id ≡ none
    → (handle_tokens to_upper others c1 c2 id q d).0.code ≡ 500
unfolding handle_tokens tokens_of get_document
tokens_missing to_upper others c1 c2 id q d missing = by_link c1.link
  where
    by_link :
        (link : Option ℕ)
        → (handle_tokens to_upper others (record c1 { link = link }) c2 id q d).0.code ≡ 500
    by_link none = rw missing
    by_link (some zero) = refl
    by_link (some (suc n)) = rw missing

-- Over a connection that holds, the status of a document that exists is answered with 200; in consistent
-- tables the two numbers of its progress count the document's tokens and those classified.
pub status_found :
    (now : ℕ) (id : Text) (d : Db) (doc : Document)
    → IsConsistent d
    → d.documents id ≡ some doc
    → (handle_status (record { link = none; now = now }) id d
        ≡ (write_json 200 (status_body (new_status_response doc)), d))
      × ((new_status_response doc).total ≡ count_where (belongs_to id) d.tokens)
      × ((new_status_response doc).classified ≡ count_where (classified_of id) d.tokens)
unfolding handle_status status_of get_document doc_status_text
status_found now id d doc v found =
    (rw found, (v.documents id doc found).total, (v.documents id doc found).counted)

abbrev pub rows_wanted : TokenFilter → Text → Db → List Token
rows_wanted f id d = at_most f.limit (from f.offset (select (wanted d.documents id f) d.tokens))

-- Over connections that hold, the tokens of a document that exists are answered with 200 and are
-- those that the filter of the query string wants, with their number, in the tables that the others
-- leave after the document's lookup.
pub tokens_found :
    (to_upper : Text → Text) (others : Db → Db) (now later : ℕ) (id : Text) (q : QueryString)
    (d : Db) (doc : Document)
    → d.documents id ≡ some doc
    → let rows = rows_wanted (token_filter_from_query to_upper q) id (others d) in
      handle_tokens to_upper others
        (record { link = none; now = now })
        (record { link = none; now = later })
        id
        q
        d
      ≡ (
        write_json 200
            (tokens_body (record { document_id = id; count = length rows; tokens = rows })),
        others d,
      )
unfolding handle_tokens tokens_of get_document list_tokens
tokens_found to_upper others now later id q d doc found =
    rw (found, run_query-build_query (others d) id (token_filter_from_query to_upper q))
