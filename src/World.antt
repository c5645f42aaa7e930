-- ===== src/World.antt =====
-- The deployed system: the tables that the API, the workers and the relay share, and the rows that
-- the broker has taken. An event is one transaction of one of them; any workers, in any
-- interleaving, are a list of events, and a delivery may be repeated, late or for a superseded run.
pub mod Safety
pub mod Guarantees
pub mod Stream
pub mod Completion
pub mod Lifecycle
pub mod Relaying
pub mod Traced
use sayari.Prelude.{ℕ, Text, Option, none, List, [], ◌∷◌, ◌++◌}
use sayari.Domain.{Document, Entity, RerunMode, Classification}
use sayari.Store.{Db, OutboxRow}
use sayari.Store.Documents.{mark_failed}
use sayari.Service.{submit}
use sayari.Pipeline.Extraction.{Conn, claim, persist}
use sayari.Pipeline.Classification.{apply}
use sayari.Relay.{Meeting, drain_batch}

pub record World : Type 0 where
  pub db : Db
  pub published : List OutboxRow

abbrev pub empty_db : Db
empty_db = record {
  documents = λ _. none;
  tokens = [];
  outbox = [];
  next_token = 1;
  next_outbox = 1;
}

abbrev pub start : World
start = record { db = empty_db; published = [] }

-- A persist takes any snapshot of a document and any entities, an apply any token, run and result.
pub data Event : Type 0 where
  submits : Conn → Text → Text → RerunMode → Event
  claims : Conn → Text → Event
  persists : Conn → Document → List Entity → Event
  applies : Conn → ℕ → ℕ → Classification → Event
  fails : Conn → Text → Event
  drains : ℕ → Meeting → Event

abbrev pub with_db : World → Db → World
with_db w d = record w { db = d }

unfoldable pub step : World → Event → World
step w (submits c id text mode) = with_db w (submit c.link c.now id text mode w.db).1
step w (claims c id) = with_db w (claim c.link c.now id w.db).1
step w (persists c doc es) = with_db w (persist c.link c.now doc es w.db).1
step w (applies c token_id run result) = with_db w (apply c.link c.now token_id run result w.db).1
step w (fails c id) = with_db w (mark_failed c.link c.now id w.db).1
step w (drains batch m) =
    let ((r, d), log) = drain_batch batch m w.db in
    record { db = d; published = w.published ++ log }

unfoldable pub run : World → List Event → World
run w [] = w
run w (e ∷ es) = run (step w e) es
