-- ===== src/Pipeline/Classification/Delivery.antt =====
-- internal/pipeline/classifier.go: what an acknowledgement means, and what a redelivery does.
use sayari.Prelude.{
  ℕ, zero, suc, ◌≡◌, refl, ◌≢◌, inl, inr, ◌⊎◌, Option, none, some, List, [], ◌∷◌, Option-cases,
  arith,
}
use sayari.Domain.{Document, Token, Classification}
use sayari.Domain.Labels.{TokenStatus}
use sayari.Queue.{Message}
use sayari.Store.{Db}
use sayari.Store.Tx.{Error, Result, ok, err, not_found, unavailable, upstream}
use sayari.Store.Tokens.{find_token, update_token, classified_row, get_token}
use sayari.System.Counts.{classified_tokens}
use sayari.Pipeline.Jobs.{ClassifyJob, decode_classify}
use sayari.Pipeline.Extraction.{Conn, delivery}
use sayari.Pipeline.Classification.{
  Classifier, apply, apply_result, classify_token, process, handle_job, handle,
}
use sayari.Pipeline.Classification.Atomicity.{apply-atomic}
use sayari.Pipeline.Classification.Runs.{Applied, apply-Applied, apply_classified_runs}

-- Why a job needs no more work: its token is gone, is classified, or is of another run than the
-- job's, or the token's document is gone or in another run.
pub data Settled (job : ClassifyJob) (d : Db) : Type 0 where
  gone : find_token job.token_id d.tokens ≡ none → Settled job d
  classified :
      (t : Token)
      → find_token job.token_id d.tokens ≡ some t
      → t.status ≡ TokenStatus.classified
      → Settled job d
  stale :
      (t : Token)
      → find_token job.token_id d.tokens ≡ some t
      → t.run_version ≢ job.run_version
      → Settled job d
  orphaned :
      (t : Token)
      → find_token job.token_id d.tokens ≡ some t
      → d.documents t.document_id ≡ none
      → Settled job d
  superseded :
      (t : Token) (doc : Document)
      → find_token job.token_id d.tokens ≡ some t
      → d.documents t.document_id ≡ some doc
      → doc.run_version ≢ job.run_version
      → Settled job d

find-update :
    (k now : ℕ) (c : Classification) (ts : List Token) (t : Token)
    → find_token k ts ≡ some t
    → find_token k (classified_tokens k now c ts) ≡ some (classified_row now c t)
unfolding find_token update_token
find-update k now c [] t e = cc
find-update k now c (x ∷ xs) t e = ground (arith, find-update k now c xs t)

-- An outcome that is acknowledged settles the job.
abbrev AckSettles : ClassifyJob → Result (Unit {0}) × Db → Type 0
AckSettles job (r, d) = delivery r ≡ none → Settled job d

Applied-Settled :
    (job : ClassifyJob) (now : ℕ) (c : Classification) (d : Db) (r : Result (Unit {0}) × Db)
    → Applied now job.token_id job.run_version c d r
    → AckSettles job r
Applied-Settled job now c d r (Applied.missing none_left e) = rw e (λ _. gone none_left)
Applied-Settled job now c d r (Applied.stale t found ne e) = rw e (λ _. stale t found ne)
Applied-Settled job now c d r (Applied.already t found same status e) =
    rw e (λ _. classified t found status)
Applied-Settled job now c d r (Applied.orphaned t found orphan e) =
    rw e (λ _. orphaned t found orphan)
Applied-Settled job now c d r (Applied.superseded t doc found own ne e) =
    rw e (λ _. superseded t doc found own ne)
Applied-Settled job now c d r (Applied.counts t doc found same status own current more e) =
    rw e (λ _. classified _ (find-update job.token_id now c d.tokens t found) refl)
Applied-Settled job now c d r (Applied.completes t doc found same status own current last e) =
    rw e (λ _. classified _ (find-update job.token_id now c d.tokens t found) refl)

pub apply-Settled :
    (job : ClassifyJob) (now : ℕ) (c : Classification) (d : Db) (link : Option ℕ)
    → AckSettles job (apply link now job.token_id job.run_version c d)
apply-Settled job now c d link = elim (apply-atomic link now job.token_id job.run_version c d) [
  | inl cut ↦ rw cut (λ e. absurd (ground (arith, e)))
  | inr same ↦
      rw same (Applied-Settled job now c d _ (apply-Applied now job.token_id job.run_version c d))
]

-- The three ends of the read before the classifier is called.
pub get_token-cases :
    (link : Option ℕ) (now k : ℕ) (d : Db)
    → (get_token link now k d ≡ (err unavailable, d))
      ⊎ ((find_token k d.tokens ≡ none) × (get_token link now k d ≡ (err not_found, d)))
      ⊎ ((t : Token) × (find_token k d.tokens ≡ some t) × (get_token link now k d ≡ (ok t, d)))
unfolding get_token
get_token-cases none now k d = elim (Option-cases (find_token k d.tokens)) [
  | inl e ↦ inr (inl (e, rw e))
  | inr (t, e) ↦ inr (inr (t, e, rw e))
]
get_token-cases (some zero) now k d = inl refl
get_token-cases (some (suc n)) now k d = elim (Option-cases (find_token k d.tokens)) [
  | inl e ↦ inr (inl (e, rw e))
  | inr (t, e) ↦ inr (inr (t, e, rw e))
]

-- The errors of a classifier are its own: none is `ErrNotFound` or `ErrStaleWrite`.
abbrev pub OwnErrors : Classifier → Type 0
OwnErrors classifier = (t : Token) (e : Error) → classifier t ≡ err e → e ≡ upstream

module _ (classifier : Classifier) (own_errors : OwnErrors classifier) (others : Db → Db)
    (c1 c2 : Conn) (job : ClassifyJob) where
  result-Settled :
      (tok : Token) (d : Db) (r : Result Classification)
      → classifier tok ≡ r
      → AckSettles job (apply_result classifier others c2 job r d)
  unfolding apply_result
  result-Settled tok d (err e) e' = λ ack. absurd (ground (arith, own_errors tok e e', ack))
  result-Settled tok d (ok result) e' = apply-Settled job c2.now result (others d) c2.link

  token-Settled :
      (s : TokenStatus) (tok : Token) (d : Db)
      → find_token job.token_id d.tokens ≡ some tok
      → tok.status ≡ s
      → AckSettles job (classify_token classifier others c2 job s tok d)
  unfolding classify_token
  token-Settled TokenStatus.classified tok d found status = λ _. classified tok found status
  token-Settled TokenStatus.pending tok d found status = result-Settled tok d (classifier tok) refl

  process-Settled : (d : Db) → AckSettles job (process classifier others c1 c2 job d)
  unfolding process
  process-Settled d = elim (get_token-cases c1.link c1.now job.token_id d) [
    | inl cut ↦ rw cut (λ e. absurd (ground (arith, e)))
    | inr (inl (missing, e)) ↦ rw e (λ _. gone missing)
    | inr (inr (tok, found, e)) ↦ rw e (token-Settled tok.status tok d found refl)
  ]

  -- If a classify message carries the job and the handler acknowledges it, then in the tables that
  -- the handler leaves the job's token is classified, is gone or of another run, or its document is;
  -- whatever the others do meanwhile and wherever a connection fails. The classifier's errors must
  -- be its own.
  pub handle-Settled :
      (msg : Message) (d : Db)
      → decode_classify msg.payload ≡ some job
      → (handle classifier others c1 c2 msg d).0 ≡ none
      → Settled job (handle classifier others c1 c2 msg d).1
  unfolding handle
  handle-Settled msg d e ack = rw (e, handle_job) (process-Settled d (rw (e, handle_job) at ack))

-- An outcome without an error leaves the token classified, in its run.
LeavesClassified : ℕ → ℕ → Result (Unit {0}) × Db → Type 0
LeavesClassified k run (err e, d) = Unit {0}
LeavesClassified k run (ok _, d) =
    (t : Token) × (find_token k d.tokens ≡ some t)
    × (t.run_version ≡ run)
    × (t.status ≡ TokenStatus.classified)

Applied-LeavesClassified :
    (now k run : ℕ) (c : Classification) (d : Db) (r : Result (Unit {0}) × Db)
    → Applied now k run c d r
    → LeavesClassified k run r
unfolding LeavesClassified
Applied-LeavesClassified now k run c d r (Applied.missing none_left e) = rw e tt
Applied-LeavesClassified now k run c d r (Applied.stale t found ne e) = rw e tt
Applied-LeavesClassified now k run c d r (Applied.already t found same status e) =
    rw e (t, found, same, status)
Applied-LeavesClassified now k run c d r (Applied.orphaned t found orphan e) = rw e tt
Applied-LeavesClassified now k run c d r (Applied.superseded t doc found own ne e) = rw e tt
Applied-LeavesClassified now k run c d r
      (Applied.counts t doc found same status own current more e) =
    rw e (_, find-update k now c d.tokens t found, same, refl)
Applied-LeavesClassified now k run c d r
      (Applied.completes t doc found same status own current last e) =
    rw e (_, find-update k now c d.tokens t found, same, refl)

reapply :
    (later k run : ℕ) (c : Classification) (r : Result (Unit {0}) × Db)
    → LeavesClassified k run r
    → r.0 ≡ ok tt
    → apply none later k run c r.1 ≡ (ok tt, r.1)
unfolding LeavesClassified
reapply later k run c (err e, d) h done = absurd (ground (arith, done))
reapply later k run c (ok _, d) (t, found, same, status) done =
    apply_classified_runs later k run c d t found same status

-- After `apply` has returned nil over a connection that holds, applying the job again, with any result, returns nil and changes
-- nothing: the counter does not move a second time.
pub apply_twice :
    (now later k run : ℕ) (c c' : Classification) (d : Db)
    → (apply none now k run c d).0 ≡ ok tt
    → apply none later k run c' (apply none now k run c d).1 ≡ (ok tt, (apply none now k run c d).1)
apply_twice now later k run c c' d done =
    reapply later k run c' (apply none now k run c d)
      (Applied-LeavesClassified now k run c d _ (apply-Applied now k run c d)) done
