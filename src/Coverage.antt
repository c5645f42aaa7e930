-- ===== src/Coverage.antt =====
-- The classify jobs of the tokens, in the outbox and at the broker (internal/outbox/relay.go,
-- docs/rerun-and-recovery.md).
pub mod Submission
pub mod Extraction
pub mod Classification
use sayari.Prelude.{
  ℕ, ◌≡◌, refl, ◌⊎◌, inl, inr, not, List, [], ◌∷◌, ◌++◌, All, Any, select, Text, arith,
}
use sayari.Domain.{Token}
use sayari.Domain.Labels.{TokenStatus}
use sayari.Queue.{stream_classify}
use sayari.Store.{Db, OutboxRow}
use sayari.Pipeline.Jobs.{encode_classify}
use sayari.System.Growth.{Grows, Grows-Any}

-- The row carries the job to classify the token in its run.
abbrev pub IsJobFor : Token → OutboxRow → Type 0
IsJobFor t r =
    (r.stream ≡ stream_classify)
    × (r.payload
        ≡ encode_classify
            (record { token_id = t.id; document_id = t.document_id; run_version = t.run_version }))

-- A token that is not classified has a job, unpublished or published.
abbrev pub HasJob : List OutboxRow → List OutboxRow → Token → Type 0
HasJob outbox published t =
    t.status ≡ TokenStatus.pending → Any (IsJobFor t) outbox ⊎ Any (IsJobFor t) published

abbrev pub Covered : List OutboxRow → List OutboxRow → List Token → Type 0
Covered outbox published = All (HasJob outbox published)

HasJob-grow :
    (d d' : Db) (log : List OutboxRow) (t : Token)
    → Grows d d'
    → HasJob d.outbox log t
    → HasJob d'.outbox log t
HasJob-grow d d' log t g h p = elim (h p) [
  | inl a ↦ inl (Grows-Any (IsJobFor t) g a)
  | inr b ↦ inr b
]

-- New rows take no job away.
pub Covered-grow :
    (d d' : Db) (log : List OutboxRow) (ts : List Token)
    → Grows d d'
    → Covered d.outbox log ts
    → Covered d'.outbox log ts
Covered-grow d d' log [] g c = tt
Covered-grow d d' log (t ∷ ts) g c = (HasJob-grow d d' log t g c.0, Covered-grow d d' log ts g c.1)
