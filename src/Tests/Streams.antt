-- ===== src/Tests/Streams.antt =====
-- The guarantee of World.Stream at a life with a drain, a read and an acknowledgement.
use sayari.Prelude.{◌≡◌, refl, ◌⊎◌, false, length, some, none, List, [], ◌∷◌, Any, text_eq}
use sayari.Domain.{RerunMode}
use sayari.Store.Tokens.{find_token, upsert_tokens, get_token}
use sayari.Coverage.{IsJobFor}
use sayari.Service.{submit}
use sayari.Pipeline.Extraction.{claim, persist, enqueue_pending}
use sayari.Pipeline.Classification.{apply}
use sayari.Pipeline.Jobs.{encode_classify, decode_classify}
use sayari.Relay.{drain_batch}
use sayari.World.{Event, start, step}
use sayari.World.Stream.{StreamEvent, happens, reads, settles, extracted, stream_step, stream_run}
use sayari.World.Stream.Safety.{stream_no_lost_work}
use sayari.Tests.{doc_id, body, conn, broken, submitted, acme, verdict}
use sayari.Tests.Life.{waiting_token}

-- The broker takes every message.
abbrev all_taken : Event
all_taken =
    Event.drains 10 (record { link = none; now = 4; broker = λ r. none; locked = λ r. false })

-- The classifier's write fails once, and the extract message is done.
abbrev streamed : List StreamEvent
streamed =
    happens (Event.submits (conn 1) doc_id body RerunMode.partial)
    ∷ happens (Event.claims (conn 2) doc_id)
    ∷ happens (Event.persists (conn 3) submitted (acme ∷ []))
    ∷ happens all_taken
    ∷ reads (conn 4) 1
    ∷ settles (broken 5) 1 verdict
    ∷ extracted 0
    ∷ []

streamed_found : find_token 1 (stream_run start streamed).db.tokens ≡ some waiting_token
unfolding stream_run stream_step step submit claim persist apply text_eq upsert_tokens
    enqueue_pending find_token drain_batch get_token decode_classify encode_classify
streamed_found = refl

-- The classify message is the only one left.
unacknowledged : length (stream_run start streamed).published ≡ 1
unfolding stream_run stream_step step submit claim persist apply text_eq upsert_tokens
    enqueue_pending find_token drain_batch get_token decode_classify encode_classify
unacknowledged = refl

-- Once the write succeeds, nothing is left.
settled :
    length (stream_step (stream_run start streamed) (settles (conn 6) 0 verdict)).published ≡ 0
unfolding stream_run stream_step step submit claim persist apply text_eq upsert_tokens
    enqueue_pending find_token drain_batch get_token decode_classify encode_classify
settled = refl

stream_no_lost_work_example :
    Any (IsJobFor waiting_token) (stream_run start streamed).db.outbox
    ⊎ Any (IsJobFor waiting_token) (stream_run start streamed).published
stream_no_lost_work_example = stream_no_lost_work streamed 1 waiting_token streamed_found refl
