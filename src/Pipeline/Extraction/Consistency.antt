-- ===== src/Pipeline/Extraction/Consistency.antt =====
-- internal/pipeline/extractor.go: `claim`, `persist` and the invariant of the tables.
use sayari.Prelude.{
  ℕ, zero, suc, ◌≡◌, refl, sym, ◌∙◌, ap, inl, inr, Option, none, some, List, Text, ◌==◌, ==_iff,
  count_where, Option-cases, Bool-cases, arith, subst,
}
use sayari.Domain.{Document, Entity, Token}
use sayari.Domain.Labels.{DocStatus}
use sayari.Store.{Db}
use sayari.Store.Documents.{belongs_to}
use sayari.Store.Tokens.{in_run}
use sayari.Store.Robust.{Outcome-keeps}
use sayari.System.Counts.{count-in_run}
use sayari.System.Invariant.{IsConsistent, Inv-updated}
use sayari.System.Upserted.{Lagging, Lagging-of_Inv, Inv-advanced}
use sayari.Pipeline.Extraction.{claim, persist}
use sayari.Pipeline.Extraction.Atomicity.{claim-atomic, persist-atomic}
use sayari.Pipeline.Extraction.Upsert.{upserted, upserted-documents, upserted-Lagging}
use sayari.Pipeline.Extraction.Jobs.{with_jobs, with_jobs_keeps}
use sayari.Pipeline.Extraction.Runs.{
  started_row, advanced_row, emptied_row, claim_missing_runs, claim_pending_runs,
  claim_started_runs, persisted, persist_missing_runs, persist_stale_runs, persist_current_runs,
}

module _ (now : ℕ) (id : Text) (d : Db) (v : IsConsistent d) where
  claim_known-IsConsistent :
      (doc : Document) (s : DocStatus)
      → d.documents id ≡ some doc
      → doc.status ≡ s
      → IsConsistent (claim none now id d).1
  claim_known-IsConsistent doc DocStatus.pending found e =
      rw (claim_pending_runs now id d doc found e) (
        Inv-updated d.documents d.tokens d.next_token v id (started_row now) (λ _. refl)
          (λ old _ h. record {
            same_id = h.same_id;
            total = h.total;
            counted = h.counted;
            complete = λ p. cc;
          }))
  claim_known-IsConsistent doc s found e =
      rw (claim_started_runs now id d doc found (ground arith)) v

  claim_runs-IsConsistent : IsConsistent (claim none now id d).1
  claim_runs-IsConsistent = elim (Option-cases (d.documents id)) [
    | inl missing ↦ rw (claim_missing_runs now id d missing) v
    | inr (doc, found) ↦ claim_known-IsConsistent doc doc.status found refl
  ]

  -- A claim keeps the invariant, wherever the connection fails.
  pub claim-IsConsistent : (link : Option ℕ) → IsConsistent (claim link now id d).1
  claim-IsConsistent link =
      Outcome-keeps IsConsistent d _ _ (claim-atomic link now id d) v claim_runs-IsConsistent

with_jobs-IsConsistent :
    (doc : Document) (ts : List Token) (d : Db) → IsConsistent d → IsConsistent (with_jobs doc ts d)
with_jobs-IsConsistent doc ts d v =
    let keeps = with_jobs_keeps doc ts d in rw (keeps.0, keeps.1, keeps.2) v

persisted-IsConsistent :
    (now : ℕ) (doc : Document) (total : ℕ) (d : Db)
    → total ≡ count_where (belongs_to doc.id) d.tokens
    → Lagging doc.id d.documents d.tokens d.next_token
    → IsConsistent (persisted now doc total d)
unfolding persisted
persisted-IsConsistent now doc zero d e v =
    Inv-advanced doc.id d.documents d.tokens d.next_token (emptied_row now) (λ _. refl)
      (λ _. (refl, e, refl, λ _. sym e)) v
persisted-IsConsistent now doc (suc n) d e v = with_jobs-IsConsistent doc _ _ (
    Inv-advanced doc.id d.documents d.tokens d.next_token (advanced_row now (suc n)) (λ _. refl)
      (λ _. (refl, e, refl, λ p. cc)) v)

module _ (now : ℕ) (doc : Document) (es : List Entity) (d : Db) (v : IsConsistent d) where
  persist_current-IsConsistent :
      (cur : Document)
      → d.documents doc.id ≡ some cur
      → cur.run_version ≡ doc.run_version
      → IsConsistent (persist none now doc es d).1
  persist_current-IsConsistent cur found same =
      rw (persist_current_runs now doc es d cur found same) (
        persisted-IsConsistent now doc _ (upserted now doc.id doc.run_version es d) counted lagging)
    where
      lagging :
          let u = upserted now doc.id doc.run_version es d in
          Lagging doc.id u.documents u.tokens u.next_token
      lagging =
          upserted-Lagging now doc.id doc.run_version es d cur found same
            (Lagging-of_Inv doc.id d.documents d.tokens d.next_token v)

      counted :
          let u = upserted now doc.id doc.run_version es d in
          count_where (in_run doc.id doc.run_version) u.tokens
          ≡ count_where (belongs_to doc.id) u.tokens
      counted =
          let u = upserted now doc.id doc.run_version es d in
          subst
            (λ r. count_where (in_run doc.id r) u.tokens ≡ count_where (belongs_to doc.id) u.tokens)
            same
            (count-in_run u.documents doc.id cur u.tokens
              (ap (λ f. f doc.id) (upserted-documents now doc.id doc.run_version es d) ∙ found)
              lagging.fenced)

  persist_runs-IsConsistent : IsConsistent (persist none now doc es d).1
  persist_runs-IsConsistent = elim (Option-cases (d.documents doc.id)) [
    | inl missing ↦ rw (persist_missing_runs now doc es d missing) v
    | inr (cur, found) ↦ elim (Bool-cases (cur.run_version == doc.run_version)) [
      | inl same ↦ persist_current-IsConsistent cur found ((==_iff _ _).0 same)
      | inr stale ↦
          rw
            (persist_stale_runs now doc es d cur found
              (ground (arith, ==_iff cur.run_version doc.run_version)))
            v
    ]
  ]

  -- A persist keeps the invariant: of a stale or a current snapshot, of any entities, and wherever
  -- the connection fails.
  pub persist-IsConsistent : (link : Option ℕ) → IsConsistent (persist link now doc es d).1
  persist-IsConsistent link =
      Outcome-keeps IsConsistent d _ _ (persist-atomic link now doc es d) v
        persist_runs-IsConsistent
