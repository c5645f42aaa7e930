-- ===== src/Service/Decisions.antt =====
-- internal/service/document.go: the decision table of `Submit`, over a connection that holds.
use sayari.Prelude.{
  ℕ, ◌+◌, ◌≡◌, refl, ◌≢◌, true, false, not, Option, none, some, [], ◌∷◌, ◌++◌, Text, text_eq_refl,
  select, arith, Option-cases, inl, inr,
}
use sayari.Domain.{Document, RerunMode}
use sayari.Domain.Labels.{DocStatus}
use sayari.Queue.{stream_extract}
use sayari.Store.{Db, OutboxRow}
use sayari.Store.Tx.{ok}
use sayari.Store.Documents.{new_document, reset_row, belongs_to}
use sayari.Pipeline.Jobs.{encode_extract}
use sayari.Service.{SubmitResult, outcome, submit}
use sayari.System.Invariant.{inserted, updated}

-- The outbox row of the extract job of a document's run.
abbrev pub extract_row : ℕ → Text → ℕ → OutboxRow
extract_row row_id id run_version = record {
  id = row_id;
  stream = stream_extract;
  key = id;
  payload = encode_extract (record { document_id = id; run_version = run_version });
}

-- The outbox with that row at its end.
abbrev pub with_extract_job : Text → ℕ → Db → Db
with_extract_job id run_version d = record d {
  outbox = d.outbox ++ extract_row d.next_outbox id run_version ∷ [];
  next_outbox = d.next_outbox + 1;
}

module _ (now : ℕ) (id text : Text) (d : Db) where
  pub submit_new_runs :
      (mode : RerunMode)
      → d.documents id ≡ none
      → submit none now id text mode d ≡ (
        ok (outcome (new_document now id text) true false),
        with_extract_job id 1
            (record d { documents = inserted id (new_document now id text) d.documents }),
      )
  unfolding submit
  submit_new_runs mode missing = ground (arith, text_eq_refl id)

  pub submit_full_runs :
      (doc : Document)
      → d.documents id ≡ some doc
      → submit none now id text RerunMode.full d ≡ (
        ok (outcome (reset_row now text doc) true true),
        with_extract_job doc.id (doc.run_version + 1) (record d {
          documents = updated id (reset_row now text) d.documents;
          tokens = select (λ t. not (belongs_to id t)) d.tokens;
        }),
      )
  unfolding submit
  submit_full_runs doc found = ground (arith, text_eq_refl id)

  pub submit_completed_runs :
      (doc : Document)
      → d.documents id ≡ some doc
      → doc.status ≡ DocStatus.completed
      → submit none now id text RerunMode.partial d ≡ (ok (outcome doc false false), d)
  unfolding submit
  submit_completed_runs doc found status = ground arith

  pub submit_failed_runs :
      (doc : Document)
      → d.documents id ≡ some doc
      → doc.status ≡ DocStatus.failed
      → submit none now id text RerunMode.partial d ≡ (
        ok (outcome (record doc { status = DocStatus.pending }) true false),
        with_extract_job doc.id doc.run_version (record d {
          documents =
              updated id
                (λ doc. record doc { status = DocStatus.pending; updated_at = now })
                d.documents;
        }),
      )
  unfolding submit
  submit_failed_runs doc found status = ground arith

  pub submit_active_runs :
      (doc : Document)
      → d.documents id ≡ some doc
      → doc.status ≢ DocStatus.completed
      → doc.status ≢ DocStatus.failed
      → submit none now id text RerunMode.partial d
        ≡ (ok (outcome doc true false), with_extract_job doc.id doc.run_version d)
  unfolding submit
  submit_active_runs doc found unfinished active = ground arith

-- The comment above `Submit`, as a table: the answer, and the tables after it.
decided_partial : DocStatus → ℕ → Text → Document → Db → SubmitResult × Db
decided_partial DocStatus.completed now id doc d = (outcome doc false false, d)
decided_partial DocStatus.failed now id doc d = (
  outcome (record doc { status = DocStatus.pending }) true false,
  with_extract_job doc.id doc.run_version (record d {
    documents =
        updated id (λ doc. record doc { status = DocStatus.pending; updated_at = now }) d.documents;
  }),
)
decided_partial DocStatus.pending now id doc d =
    (outcome doc true false, with_extract_job doc.id doc.run_version d)
decided_partial DocStatus.extracting now id doc d =
    (outcome doc true false, with_extract_job doc.id doc.run_version d)
decided_partial DocStatus.classifying now id doc d =
    (outcome doc true false, with_extract_job doc.id doc.run_version d)

unfoldable pub decided : RerunMode → Option Document → ℕ → Text → Text → Db → SubmitResult × Db
unfolding decided_partial
decided mode none now id text d = (
  outcome (new_document now id text) true false,
  with_extract_job id 1
      (record d { documents = inserted id (new_document now id text) d.documents }),
)
decided RerunMode.full (some doc) now id text d = (
  outcome (reset_row now text doc) true true,
  with_extract_job doc.id (doc.run_version + 1) (record d {
    documents = updated id (reset_row now text) d.documents;
    tokens = select (λ t. not (belongs_to id t)) d.tokens;
  }),
)
decided RerunMode.partial (some doc) now id text d = decided_partial doc.status now id doc d

module _ (now : ℕ) (id text : Text) (d : Db) where
  partial-decided :
      (doc : Document) (s : DocStatus)
      → doc.status ≡ s
      → d.documents id ≡ some doc
      → let (res, d') = decided_partial s now id doc d in
        submit none now id text RerunMode.partial d ≡ (ok res, d')
  unfolding decided_partial
  partial-decided doc DocStatus.completed e found = submit_completed_runs now id text d doc found e
  partial-decided doc DocStatus.failed e found = submit_failed_runs now id text d doc found e
  partial-decided doc DocStatus.pending e found =
      submit_active_runs now id text d doc found (ground (arith, e)) (ground (arith, e))
  partial-decided doc DocStatus.extracting e found =
      submit_active_runs now id text d doc found (ground (arith, e)) (ground (arith, e))
  partial-decided doc DocStatus.classifying e found =
      submit_active_runs now id text d doc found (ground (arith, e)) (ground (arith, e))

  found-decided :
      (mode : RerunMode) (doc : Document)
      → d.documents id ≡ some doc
      → let (res, d') = decided mode (some doc) now id text d in
        submit none now id text mode d ≡ (ok res, d')
  unfolding decided
  found-decided RerunMode.full doc found = submit_full_runs now id text d doc found
  found-decided RerunMode.partial doc found = partial-decided doc doc.status refl found

  -- Over a connection that holds, `Submit` never fails, and it answers and leaves the tables as its decision table
  -- says, for each mode and each state of the document: a new document is inserted, a full run resets it and
  -- deletes its tokens, a partial one resumes it, moves a FAILED one back to PENDING, and leaves a
  -- COMPLETED one alone; each accepted submission writes one extract job for the document's run.
  pub submit-decided :
      (mode : RerunMode)
      → let (res, d') = decided mode (d.documents id) now id text d in
        submit none now id text mode d ≡ (ok res, d')
  unfolding decided
  submit-decided mode = elim (Option-cases (d.documents id)) [
    | inl missing ↦ rw (missing, decided) (submit_new_runs now id text d mode missing)
    | inr (doc, found) ↦ rw found (found-decided mode doc found)
  ]
