-- ===== src/Tests/Extractions.antt =====
-- internal/pipeline/extractor.go: an extract message of a document that was just submitted.
use sayari.Prelude.{◌≡◌, refl, none, List, [], ◌∷◌, text_eq, arith}
use sayari.Domain.{RerunMode}
use sayari.Queue.{Message}
use sayari.Store.{Db}
use sayari.Store.Tx.{ok}
use sayari.Store.Tokens.{upsert_tokens}
use sayari.Service.{submit}
use sayari.Pipeline.Jobs.{ExtractJob, encode_extract, decode_extract, decode_extract-encode_extract}
use sayari.Pipeline.Extraction.{Extractor, claim, persist, enqueue_pending, handle}
use sayari.Pipeline.Extraction.Delivery.{ExtractSettled, handle-ExtractSettled}
use sayari.World.{Event, start, step, run}
use sayari.World.Safety.{run-start-IsSafe}
use sayari.Tests.{doc_id, body, conn, acme}

abbrev new_events : List Event
new_events = Event.submits (conn 1) doc_id body RerunMode.partial ∷ []

abbrev new_db : Db
new_db = (run start new_events).db

abbrev extract_job : ExtractJob
extract_job = record { document_id = doc_id; run_version = 1 }

abbrev extract_message : Message
extract_message = record { key = doc_id; payload = encode_extract extract_job }

abbrev finds_acme : Extractor
finds_acme doc = ok (acme ∷ [])

taken_up : (handle finds_acme (λ d. d) (conn 2) (conn 3) extract_message new_db).0 ≡ none
unfolding handle run step submit claim persist text_eq upsert_tokens enqueue_pending encode_extract
    decode_extract
taken_up = refl

handle-ExtractSettled_example :
    ExtractSettled finds_acme doc_id new_db
      (handle finds_acme (λ d. d) (conn 2) (conn 3) extract_message new_db).1
handle-ExtractSettled_example =
    handle-ExtractSettled finds_acme (λ doc e h. absurd (ground (arith, h))) (λ d. d) (conn 2)
      (conn 3) extract_job new_db (run-start-IsSafe new_events).consistent extract_message
      (decode_extract-encode_extract extract_job) taken_up
