-- ===== src/Coverage/Extraction.antt =====
-- internal/pipeline/extractor.go: `claim`, `persist` and the jobs of the tokens.
use sayari.Prelude.{
  ℕ, zero, suc, ◌≡◌, refl, sym, ap, ◌∙◌, ◌⊎◌, inl, inr, true, false, none, some, Option, List, [],
  ◌∷◌, Text, text_eq_refl, text_eq_iff, ◌==◌, ==_iff, select, count_where, All, All-of_select,
  All-map2, count_where_zero, Any, Any-append_right, Option-cases, Bool-cases, subst, arith,
}
use sayari.Domain.{Document, Entity, Token}
use sayari.Domain.Labels.{TokenStatus}
use sayari.Queue.{stream_classify}
use sayari.Store.{Db, OutboxRow}
use sayari.Store.Tokens.{in_run}
use sayari.Store.Robust.{Outcome-keeps}
use sayari.System.Growth.{Grows, Grows-Any}
use sayari.System.Invariant.{updated}
use sayari.Pipeline.Jobs.{encode_classify}
use sayari.Pipeline.Extraction.{claim, persist}
use sayari.Pipeline.Extraction.Atomicity.{persist-atomic}
use sayari.Pipeline.Extraction.Kept.{claim-AllTokens, upserted-AllTokens}
use sayari.Pipeline.Extraction.Growth.{claim-Grows, persist-Grows, with_jobs-Grows}
use sayari.Pipeline.Extraction.Upsert.{upserted}
use sayari.Pipeline.Extraction.Jobs.{job_of, with_job, with_jobs, with_jobs_keeps}
use sayari.Pipeline.Extraction.Runs.{
  advanced_row, persisted, persist_missing_runs, persist_stale_runs, persist_current_runs,
}
use sayari.Coverage.{IsJobFor, HasJob, Covered, Covered-grow}

-- The row carries the job that the loop writes for the token.
abbrev IsJobOf : Document → Token → OutboxRow → Type 0
IsJobOf doc t r = (r.stream ≡ stream_classify) × (r.payload ≡ encode_classify (job_of doc t))

abbrev Enqueued : Document → List OutboxRow → Token → Type 0
Enqueued doc outbox t = t.status ≡ TokenStatus.pending → Any (IsJobOf doc t) outbox

with_job-Enqueued :
    (s : TokenStatus) (doc : Document) (t : Token) (d : Db)
    → s ≡ TokenStatus.pending
    → Any (IsJobOf doc t) (with_job s doc t d).outbox
unfolding with_job
with_job-Enqueued TokenStatus.classified doc t d e = cc
with_job-Enqueued TokenStatus.pending doc t d e =
    Any-append_right (IsJobOf doc t) d.outbox _ (inl (refl, refl))

-- After the loop each pending token of the list has its row.
with_jobs-Enqueued :
    (doc : Document) (ts : List Token) (d : Db) → All (Enqueued doc (with_jobs doc ts d).outbox) ts
unfolding with_jobs
with_jobs-Enqueued doc [] d = tt
with_jobs-Enqueued doc (t ∷ ts) d = (
  λ p.
      Grows-Any (IsJobOf doc t) (with_jobs-Grows doc ts (with_job t.status doc t d))
        (with_job-Enqueued t.status doc t d p),
  with_jobs-Enqueued doc ts (with_job t.status doc t d),
)

-- In the document's run, the two forms of the job are one.
IsJobFor-of_job :
    (doc : Document) (t : Token) (rows : List OutboxRow)
    → in_run doc.id doc.run_version t ≡ true
    → Any (IsJobOf doc t) rows
    → Any (IsJobFor t) rows
IsJobFor-of_job doc t [] e h = absurd h
IsJobFor-of_job doc t (r ∷ rs) e (inl (s, p)) =
    inl (s, p ∙ ap encode_classify (ground (arith, text_eq_iff t.document_id doc.id)))
IsJobFor-of_job doc t (r ∷ rs) e (inr h) = inr (IsJobFor-of_job doc t rs e h)

module _ (now : ℕ) (id : Text) (run : ℕ) (Q : Token → Type 0) where
  -- A token of the table is of the run, or was there before.
  abbrev NewOrOld : Token → Type 0
  NewOrOld t = (in_run id run t ≡ true) ⊎ Q t

  upserted-NewOrOld :
      (es : List Entity) (d : Db)
      → All NewOrOld d.tokens
      → All NewOrOld (upserted now id run es d).tokens
  upserted-NewOrOld =
      upserted-AllTokens NewOrOld now id run (λ k e. inl (ground (arith, text_eq_refl id)))

All-old {κ} :
    (Q : Token → Type κ) (P : Token → Type κ) (ts : List Token) → All Q ts → All (λ t. P t ⊎ Q t) ts
All-old Q P [] h = tt
All-old Q P (t ∷ ts) h = (inr h.0, All-old Q P ts h.1)

HasJob-new :
    (doc : Document) (outbox log : List OutboxRow) (t : Token)
    → (in_run doc.id doc.run_version t ≡ true → Enqueued doc outbox t)
    → (in_run doc.id doc.run_version t ≡ true) ⊎ HasJob outbox log t
    → HasJob outbox log t
HasJob-new doc outbox log t enqueued (inr old) = old
HasJob-new doc outbox log t enqueued (inl of_run) =
    λ p. inl (IsJobFor-of_job doc t outbox of_run (enqueued of_run p))

HasJob-none :
    (doc : Document) (outbox log : List OutboxRow) (t : Token)
    → in_run doc.id doc.run_version t ≡ false
    → (in_run doc.id doc.run_version t ≡ true) ⊎ HasJob outbox log t
    → HasJob outbox log t
HasJob-none doc outbox log t other (inr old) = old
HasJob-none doc outbox log t other (inl of_run) = absurd (ground (arith, other, of_run))

persisted-Covered :
    (now : ℕ) (doc : Document) (total : ℕ) (d : Db) (log : List OutboxRow)
    → count_where (in_run doc.id doc.run_version) d.tokens ≡ total
    → All
        (λ t.
          (in_run doc.id doc.run_version t ≡ true)
          ⊎ HasJob (persisted now doc total d).outbox log t)
        d.tokens
    → Covered (persisted now doc total d).outbox log (persisted now doc total d).tokens
unfolding persisted
persisted-Covered now doc zero d log e h =
    All-map2 _ _ _ d.tokens (HasJob-none doc d.outbox log) (count_where_zero _ d.tokens e) h
persisted-Covered now doc (suc n) d log e h =
    let chosen = select (in_run doc.id doc.run_version) d.tokens in
    let start : Db = record d {
      documents = updated doc.id (advanced_row now (suc n)) d.documents;
    } in
    subst (Covered (with_jobs doc chosen start).outbox log)
      (sym (with_jobs_keeps doc chosen start).1)
      (All-map2 _ _ _ d.tokens (HasJob-new doc (with_jobs doc chosen start).outbox log)
        (All-of_select _ _ d.tokens (with_jobs-Enqueued doc chosen start)) h)

module _ (now : ℕ) (doc : Document) (es : List Entity) (d : Db) (log : List OutboxRow)
    (c : Covered d.outbox log d.tokens) where
  persist_current-Covered :
      (cur : Document)
      → d.documents doc.id ≡ some cur
      → cur.run_version ≡ doc.run_version
      → Covered (persist none now doc es d).1.outbox log (persist none now doc es d).1.tokens
  persist_current-Covered cur found same =
      let runs = persist_current_runs now doc es d cur found same in
      let u : Db = upserted now doc.id doc.run_version es d in
      let total : ℕ = count_where (in_run doc.id doc.run_version) u.tokens in
      let grows : Grows d (persisted now doc total u) =
        rw runs at (persist-Grows now doc es d none) in
      rw runs (
        persisted-Covered now doc total u log refl (
          upserted-NewOrOld now doc.id doc.run_version
            (HasJob (persisted now doc total u).outbox log) es d
            (All-old (HasJob (persisted now doc total u).outbox log)
              (λ t. in_run doc.id doc.run_version t ≡ true) d.tokens
              (Covered-grow d _ log d.tokens grows c))))

  persist_runs-Covered :
      Covered (persist none now doc es d).1.outbox log (persist none now doc es d).1.tokens
  persist_runs-Covered = elim (Option-cases (d.documents doc.id)) [
    | inl missing ↦ rw (persist_missing_runs now doc es d missing) c
    | inr (cur, found) ↦ elim (Bool-cases (cur.run_version == doc.run_version)) [
      | inl same ↦ persist_current-Covered cur found ((==_iff _ _).0 same)
      | inr stale ↦
          rw
            (persist_stale_runs now doc es d cur found
              (ground (arith, ==_iff cur.run_version doc.run_version)))
            c
    ]
  ]

  -- Whatever a persist stores, the job of each pending token is stored with it.
  pub persist-Covered :
      (link : Option ℕ)
      → Covered (persist link now doc es d).1.outbox log (persist link now doc es d).1.tokens
  persist-Covered link =
      Outcome-keeps (λ x. Covered x.outbox log x.tokens) d _ _ (persist-atomic link now doc es d) c
        persist_runs-Covered

pub claim-Covered :
    (now : ℕ) (id : Text) (d : Db) (log : List OutboxRow)
    → Covered d.outbox log d.tokens
    → (link : Option ℕ) → Covered (claim link now id d).1.outbox log (claim link now id d).1.tokens
claim-Covered now id d log c link =
    claim-AllTokens (HasJob (claim link now id d).1.outbox log) now id d
      (Covered-grow d _ log d.tokens (claim-Grows now id d link) c) link
