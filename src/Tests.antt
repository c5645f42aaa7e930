-- ===== src/Tests.antt =====
-- A small life of one document, and the tables at some of its points, for the examples.
mod Life
mod Stages
mod Http
mod Entities
mod Models
mod Broker
mod Environment
mod Streams
mod Lifecycles
mod Chats
mod Workers
mod Ticks
mod Extractions
mod Startup
mod Reals
use sayari.Prelude.{ℕ, ◌≡◌, refl, Option, none, some, List, [], ◌∷◌, Text, codes, text_eq}
use sayari.Store.Tokens.{upsert_tokens}
use sayari.Domain.{Document, Entity, Position, RerunMode, Classification}
use sayari.Domain.Labels.{DocStatus, category_company}
use sayari.Store.{Db}
use sayari.Store.Sha256.{hash_text}
use sayari.Pipeline.Extraction.{Conn, claim, persist, enqueue_pending}
use sayari.World.{start, Event, step, run}
use sayari.Service.{submit}
use sayari.Pipeline.Classification.{apply}

abbrev pub doc_id : Text
doc_id = codes "d"

abbrev pub body : Text
body = codes "Acme Corp pays."

abbrev pub conn : ℕ → Conn
conn now = record { link = none; now = now }

-- A connection that fails at its third statement.
abbrev pub broken : ℕ → Conn
broken now = record { link = some 2; now = now }

abbrev pub acme : Entity
acme = record {
  text = codes "Acme Corp";
  context = codes "Acme Corp pays.";
  position = record { page = 1; sentence = 0; char_offset = 0 };
}

abbrev pub submitted : Document
submitted = record {
  id = doc_id;
  text = body;
  content_hash = hash_text body;
  status = DocStatus.pending;
  run_version = 1;
  total_tokens = 0;
  classified_count = 0;
  extraction_started_at = none;
  extraction_completed_at = none;
  classification_started_at = none;
  classification_completed_at = none;
  created_at = 1;
  updated_at = 1;
}

abbrev pub claimed : Document
claimed = record submitted {
  status = DocStatus.extracting;
  extraction_started_at = some 2;
  updated_at = 2;
}

abbrev pub waiting : Document
waiting = record claimed {
  status = DocStatus.classifying;
  total_tokens = 1;
  extraction_completed_at = some 3;
  classification_started_at = some 3;
  updated_at = 3;
}

abbrev pub done : Document
done = record waiting {
  status = DocStatus.completed;
  classified_count = 1;
  classification_completed_at = some 4;
  updated_at = 4;
}

abbrev pub verdict : Classification
verdict = record { category = category_company; confidence = 0; reasoning = codes "suffix" }

abbrev pub early : List Event
early =
    Event.submits (conn 1) doc_id body RerunMode.partial
    ∷ Event.claims (broken 2) doc_id
    ∷ Event.claims (conn 2) doc_id
    ∷ Event.persists (conn 3) submitted (acme ∷ [])
    ∷ []

abbrev pub life : List Event
life =
    Event.submits (conn 1) doc_id body RerunMode.partial
    ∷ Event.claims (conn 2) doc_id
    ∷ Event.persists (conn 3) submitted (acme ∷ [])
    ∷ Event.applies (conn 4) 1 1 verdict
    ∷ []

abbrev pub waiting_db : Db
waiting_db = (run start early).db

abbrev pub done_db : Db
done_db = (run start life).db

pub waiting_found : waiting_db.documents doc_id ≡ some waiting
unfolding run step submit claim persist apply text_eq upsert_tokens enqueue_pending
waiting_found = refl

pub done_found : done_db.documents doc_id ≡ some done
unfolding run step submit claim persist apply text_eq upsert_tokens enqueue_pending
done_found = refl
