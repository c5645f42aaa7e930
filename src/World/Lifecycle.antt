-- ===== src/World/Lifecycle.antt =====
-- What the documentation promises of a document's manifest (README.md, docs/rerun-and-recovery.md):
-- an abstract machine with the status, the run and the two counters, and nothing else.
pub mod Moved
pub mod Workers
pub mod Refined
use mathlib.Core.Option
use sayari.Prelude.{ℕ, ◌+◌, ◌≤◌, ◌<◌, ◌≡◌, Option, none, some, List, [], ◌∷◌, Text}
use sayari.Domain.{Document, Entity, RerunMode, Classification}
use sayari.Domain.Labels.{DocStatus}
use sayari.Store.{Db}
use sayari.Pipeline.Extraction.{Conn}
use sayari.World.{Event, submits, claims, persists, applies, fails}

pub record Manifest : Type 0 where
  pub status : DocStatus
  pub run : ℕ
  pub total : ℕ
  pub classified : ℕ

abbrev pub fresh : Manifest
fresh = record { status = DocStatus.pending; run = 1; total = 0; classified = 0 }

-- The move of a document's manifest in one event; it is `none` before the first submission. Only the
-- event named can make the move, and only at this document; any event may leave the manifest alone.
pub data Moves (id : Text) : Event → Option Manifest → Option Manifest → Type 0 where
  stays : (e : Event) (o : Option Manifest) → Moves id e o o
  submitted :
      (c : Conn) (j text : Text) (mode : RerunMode)
      → j ≡ id
      → Moves id (submits c j text mode) none (some fresh)
  reruns :
      (c : Conn) (j text : Text) (m : Manifest)
      → j ≡ id
      → Moves id
          (submits c j text RerunMode.full)
          (some m)
          (some (record { status = DocStatus.pending; run = m.run + 1; total = 0; classified = 0 }))
  resumes :
      (c : Conn) (j text : Text) (m : Manifest)
      → j ≡ id
      → m.status ≡ DocStatus.failed
      → Moves id
          (submits c j text RerunMode.partial)
          (some m)
          (some (record m { status = DocStatus.pending }))
  starts :
      (c : Conn) (j : Text) (m : Manifest)
      → j ≡ id
      → m.status ≡ DocStatus.pending
      → Moves id (claims c j) (some m) (some (record m { status = DocStatus.extracting }))
  extracts :
      (c : Conn) (doc : Document) (es : List Entity) (m : Manifest) (total : ℕ)
      → doc.id ≡ id
      → doc.run_version ≡ m.run
      → m.total ≤ total
      → 0 < total
      → Moves id
          (persists c doc es)
          (some m)
          (some (record m { status = DocStatus.classifying; total = total }))
  finds_nothing :
      (c : Conn) (doc : Document) (es : List Entity) (m : Manifest)
      → doc.id ≡ id
      → doc.run_version ≡ m.run
      → m.total ≡ 0
      → Moves id
          (persists c doc es)
          (some m)
          (some (record m { status = DocStatus.completed; total = 0 }))
  counts :
      (c : Conn) (k run : ℕ) (result : Classification) (m : Manifest)
      → run ≡ m.run
      → m.classified + 1 < m.total
      → Moves id
          (applies c k run result)
          (some m)
          (some (record m { classified = m.classified + 1 }))
  completes :
      (c : Conn) (k run : ℕ) (result : Classification) (m : Manifest)
      → run ≡ m.run
      → m.classified + 1 ≡ m.total
      → Moves id
          (applies c k run result)
          (some m)
          (some (record m { status = DocStatus.completed; classified = m.classified + 1 }))
  gives_up :
      (c : Conn) (j : Text) (m : Manifest)
      → j ≡ id
      → Moves id (fails c j) (some m) (some (record m { status = DocStatus.failed }))

-- One move for each of the events, in their order.
pub data Lives (id : Text) : List Event → Option Manifest → Option Manifest → Type 0 where
  ends : (o : Option Manifest) → Lives id [] o o
  moves :
      (e : Event) (es : List Event) (o p q : Option Manifest)
      → Moves id e o p
      → Lives id es p q
      → Lives id (e ∷ es) o q

-- What the machine sees of a document.
abbrev pub manifest_of : Document → Manifest
manifest_of doc = record {
  status = doc.status;
  run = doc.run_version;
  total = doc.total_tokens;
  classified = doc.classified_count;
}

abbrev pub manifest : Text → Db → Option Manifest
manifest id d = Option.map manifest_of (d.documents id)
