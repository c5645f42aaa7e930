-- ===== src/Pipeline/Extraction/Delivery.antt =====
-- internal/pipeline/extractor.go: what an acknowledged extract message means.
use sayari.Prelude.{
  ℕ, ◌≡◌, ◌≢◌, refl, sym, ap, subst, ◌∙◌, ◌⊎◌, inl, inr, Option, none, some, Option-cases,
  Bool-cases, List, Text, count_where, ◌==◌, ==_iff, arith,
}
use sayari.Domain.{Document, Entity}
use sayari.Domain.Labels.{DocStatus}
use sayari.Queue.{Message}
use sayari.Store.{Db}
use sayari.Store.Tokens.{in_run}
use sayari.Store.Tx.{Error, Result, ok, err, upstream}
use sayari.System.Invariant.{IsConsistent, updated}
use sayari.Pipeline.Jobs.{ExtractJob, decode_extract}
use sayari.Pipeline.Extraction.{
  Extractor, Conn, claim, persist, discard, delivery, persist_extracted, extract_claimed,
  process_claimed, process, handle_job, handle,
}
use sayari.Pipeline.Extraction.Atomicity.{claim-atomic, persist-atomic}
use sayari.Pipeline.Extraction.Upsert.{upserted-documents}
use sayari.Pipeline.Extraction.Written.{
  AllWritten, upserted-AllWritten, Advanced, persisted-tokens, persisted-row,
}
use sayari.Pipeline.Extraction.Runs.{
  started_row, claim_missing_runs, claim_pending_runs, claim_started_runs, persist_missing_runs,
  persist_stale_runs, persist_current_runs, stored, stored_total,
}

-- Why a job needs no more work: the document is gone, or is in another run than when the job was
-- taken up; or it was CLASSIFYING or COMPLETED already, and nothing is changed; or what the
-- extractor finds in its text is written: each entity has its token in the run, and the document
-- shows the number of these tokens and waits for them, or has none and is COMPLETED.
pub data ExtractSettled (extractor : Extractor) (id : Text) (before after : Db) : Type 0 where
  gone : after.documents id ≡ none → ExtractSettled extractor id before after
  superseded :
      (doc cur : Document)
      → before.documents id ≡ some doc
      → after.documents id ≡ some cur
      → cur.run_version ≢ doc.run_version
      → ExtractSettled extractor id before after
  already :
      (doc : Document)
      → before.documents id ≡ some doc
      → (doc.status ≡ DocStatus.classifying) ⊎ (doc.status ≡ DocStatus.completed)
      → after ≡ before
      → ExtractSettled extractor id before after
  written :
      (doc seen cur : Document) (es : List Entity)
      → before.documents id ≡ some doc
      → (seen.id ≡ id) × (seen.text ≡ doc.text)
      → extractor seen ≡ ok es
      → AllWritten id doc.run_version after.tokens es
      → after.documents id ≡ some cur
      → cur.run_version ≡ doc.run_version
      → cur.total_tokens ≡ count_where (in_run id doc.run_version) after.tokens
      → Advanced cur
      → ExtractSettled extractor id before after

module _ (extractor : Extractor) (before : Db) (doc0 doc : Document)
    (at : before.documents doc.id ≡ some doc0) (same_run : doc.run_version ≡ doc0.run_version)
    (same_text : doc.text ≡ doc0.text) (now : ℕ) (es : List Entity)
    (found_es : extractor doc ≡ ok es) (u : Db) where
  persist_current-Settled :
      (cur : Document)
      → u.documents doc.id ≡ some cur
      → cur.run_version ≡ doc.run_version
      → ExtractSettled extractor doc.id before (discard (persist none now doc es u)).1
  persist_current-Settled cur found current =
      let kept : Db = stored now doc es u in
      let total : ℕ = stored_total now doc es u in
      let row =
        persisted-row now doc cur total kept
          (ap (λ f. f doc.id) (upserted-documents now doc.id doc.run_version es u) ∙ found) in
      let same_tokens = persisted-tokens now doc total kept in
      rw (persist_current_runs now doc es u cur found current) (
        written doc0 doc row.0 es at (refl, same_text) found_es
          (rw (same_tokens, ← same_run) (upserted-AllWritten now doc.id doc.run_version es u))
          row.1.0 (row.1.1.0 ∙ current ∙ same_run) (rw (same_tokens, ← same_run) row.1.1.1.0)
          row.1.1.1.1)

  persist-Settled :
      (link : Option ℕ)
      → delivery (discard (persist link now doc es u)).0 ≡ none
      → ExtractSettled extractor doc.id before (discard (persist link now doc es u)).1
  persist-Settled link = elim (persist-atomic link now doc es u) [
    | inl cut ↦ rw cut (λ e. absurd (ground (arith, e)))
    | inr runs ↦ rw runs (elim (Option-cases (u.documents doc.id)) [
      | inl missing ↦ rw (persist_missing_runs now doc es u missing) (λ _. gone missing)
      | inr (cur, found) ↦ elim (Bool-cases (cur.run_version == doc.run_version)) [
        | inr stale ↦
            let ne : cur.run_version ≢ doc.run_version =
              ground (arith, ==_iff cur.run_version doc.run_version) in
            rw (persist_stale_runs now doc es u cur found ne)
              (λ _. superseded doc0 cur at found (subst (λ r. cur.run_version ≢ r) same_run ne))
        | inl same ↦ (λ _.
            persist_current-Settled cur found ((==_iff cur.run_version doc.run_version).0 same))
      ]
    ])
  ]

-- The errors of an extractor are its own: none is `ErrNotFound` or `ErrStaleWrite`.
abbrev pub OwnErrors : Extractor → Type 0
OwnErrors extractor = (doc : Document) (e : Error) → extractor doc ≡ err e → e ≡ upstream

module _ (extractor : Extractor) (own_errors : OwnErrors extractor) (others : Db → Db)
    (c1 c2 : Conn) where
  module _ (before : Db) (doc0 doc : Document) (at : before.documents doc.id ≡ some doc0)
      (same_run : doc.run_version ≡ doc0.run_version) (same_text : doc.text ≡ doc0.text) where
    entities-Settled :
        (r : Result (List Entity)) (d : Db)
        → extractor doc ≡ r
        → delivery (persist_extracted extractor others c2 doc r d).0 ≡ none
        → ExtractSettled extractor doc.id before (persist_extracted extractor others c2 doc r d).1
    unfolding persist_extracted
    entities-Settled (err e) d own ack = absurd (ground (arith, own_errors doc e own, ack))
    entities-Settled (ok es) d own ack =
        persist-Settled extractor before doc0 doc at same_run same_text c2.now es own (others d)
          c2.link ack

    claimed-Settled :
        (s : DocStatus) (d : Db)
        → doc.status ≡ s
        → (s ≡ DocStatus.completed → (d ≡ before) × (doc0.status ≡ s))
        → (s ≡ DocStatus.classifying → (d ≡ before) × (doc0.status ≡ s))
        → delivery (extract_claimed extractor others c2 s doc d).0 ≡ none
        → ExtractSettled extractor doc.id before (extract_claimed extractor others c2 s doc d).1
    unfolding extract_claimed
    claimed-Settled DocStatus.completed d status done waits ack =
        already doc0 at (inr (done refl).1) (done refl).0
    claimed-Settled DocStatus.classifying d status done waits ack =
        already doc0 at (inl (waits refl).1) (waits refl).0
    claimed-Settled DocStatus.pending d status done waits ack =
        entities-Settled (extractor doc) d refl ack
    claimed-Settled DocStatus.extracting d status done waits ack =
        entities-Settled (extractor doc) d refl ack
    claimed-Settled DocStatus.failed d status done waits ack =
        entities-Settled (extractor doc) d refl ack

  module _ (job : ExtractJob) (d : Db) (v : IsConsistent d) where
    abbrev Acked : Result (Unit {0}) × Db → Type 0
    Acked r = delivery r.0 ≡ none → ExtractSettled extractor job.document_id d r.1

    known-Settled :
        (doc : Document) (s : DocStatus)
        → d.documents job.document_id ≡ some doc
        → doc.status ≡ s
        → Acked (process_claimed extractor others c2 (claim none c1.now job.document_id d))
    unfolding process_claimed
    known-Settled doc DocStatus.pending found status =
        let same = (v.documents job.document_id doc found).same_id in
        let claimed : Document = record doc { status = DocStatus.extracting } in
        let d1 : Db = record d {
          documents = updated job.document_id (started_row c1.now) d.documents;
        } in
        rw (claim_pending_runs c1.now job.document_id d doc found status) (
          subst
            (λ id.
              delivery (extract_claimed extractor others c2 DocStatus.extracting claimed d1).0
                ≡ none
              → ExtractSettled extractor id d
                  (extract_claimed extractor others c2 DocStatus.extracting claimed d1).1)
            same
            (claimed-Settled d doc claimed
              (subst (λ id. d.documents id ≡ some doc) (sym same) found) refl refl
              DocStatus.extracting d1 refl (λ e. cc) (λ e. cc)))
    known-Settled doc s found status =
        let same = (v.documents job.document_id doc found).same_id in
        let here : d.documents doc.id ≡ some doc =
          subst (λ id. d.documents id ≡ some doc) (sym same) found in
        rw (claim_started_runs c1.now job.document_id d doc found (ground (arith, status))) (
          subst
            (λ id.
              delivery (extract_claimed extractor others c2 doc.status doc d).0 ≡ none
              → ExtractSettled extractor id d
                  (extract_claimed extractor others c2 doc.status doc d).1)
            same
            (claimed-Settled d doc doc here refl refl doc.status d refl (λ _. (refl, refl))
              (λ _. (refl, refl))))

    process-Settled : Acked (process extractor others c1 c2 job d)
    unfolding process process_claimed
    process-Settled = elim (claim-atomic c1.link c1.now job.document_id d) [
      | inl cut ↦ rw cut (λ e. absurd (ground (arith, e)))
      | inr runs ↦ rw runs (elim (Option-cases (d.documents job.document_id)) [
        | inl missing ↦ rw (claim_missing_runs c1.now job.document_id d missing) (λ _. gone missing)
        | inr (doc, found) ↦ known-Settled doc doc.status found refl
      ])
    ]

    -- In tables that are consistent, if an extract message carries the job and the handler
    -- acknowledges it, then in the tables that the handler leaves the document is gone, or is in
    -- another run than at the start; or it was CLASSIFYING or COMPLETED at the start and the tables
    -- are left as they were; or each entity that the extractor finds in the document has its token
    -- in the run, the document's total is the number of the tokens of the run, and it is CLASSIFYING
    -- with a positive total or COMPLETED with none. This holds whatever the others do meanwhile and
    -- wherever a connection fails. The extractor's errors must be its own.
    pub handle-ExtractSettled :
        (msg : Message)
        → decode_extract msg.payload ≡ some job
        → (handle extractor others c1 c2 msg d).0 ≡ none
        → ExtractSettled extractor job.document_id d (handle extractor others c1 c2 msg d).1
    unfolding handle
    handle-ExtractSettled msg e ack =
        rw (e, handle_job) (process-Settled (rw (e, handle_job) at ack))
