-- ===== src/Service/Growth.antt =====
-- internal/service/document.go: `Submit` and the outbox.
use sayari.Prelude.{
  ℕ, ◌≡◌, refl, inl, inr, none, some, Option, [], ◌∷◌, ◌++◌, ap, Text, Option-cases, arith,
}
use sayari.Domain.{Document, RerunMode}
use sayari.Domain.Labels.{DocStatus}
use sayari.Store.{Db}
use sayari.Store.Robust.{Outcome-keeps}
use sayari.System.Growth.{Grows, Grows-same}
use sayari.Service.{submit}
use sayari.Service.Atomicity.{submit-atomic}
use sayari.Service.Decisions.{
  extract_row, with_extract_job, submit_new_runs, submit_full_runs, submit_completed_runs,
  submit_failed_runs, submit_active_runs,
}

Grows-job :
    (id : Text) (run : ℕ) (d d' : Db)
    → d'.outbox ≡ d.outbox
    → d'.next_outbox ≡ d.next_outbox
    → Grows d (with_extract_job id run d')
Grows-job id run d d' o n = record {
  new = extract_row d'.next_outbox id run ∷ [];
  grown = ap (λ rows. rows ++ extract_row d'.next_outbox id run ∷ []) o;
  fresh = omega (arith, n);
}

module _ (now : ℕ) (id text : Text) (d : Db) where
  submit_known-Grows :
      (mode : RerunMode) (doc : Document) (s : DocStatus)
      → d.documents id ≡ some doc
      → doc.status ≡ s
      → Grows d (submit none now id text mode d).1
  submit_known-Grows RerunMode.full doc s found e =
      rw (submit_full_runs now id text d doc found) (Grows-job _ _ d _ refl refl)
  submit_known-Grows RerunMode.partial doc DocStatus.completed found e =
      rw (submit_completed_runs now id text d doc found e) (Grows-same d d refl refl)
  submit_known-Grows RerunMode.partial doc DocStatus.failed found e =
      rw (submit_failed_runs now id text d doc found e) (Grows-job _ _ d _ refl refl)
  submit_known-Grows RerunMode.partial doc DocStatus.pending found e =
      rw (submit_active_runs now id text d doc found (ground arith) (ground arith))
        (Grows-job _ _ d d refl refl)
  submit_known-Grows RerunMode.partial doc DocStatus.extracting found e =
      rw (submit_active_runs now id text d doc found (ground arith) (ground arith))
        (Grows-job _ _ d d refl refl)
  submit_known-Grows RerunMode.partial doc DocStatus.classifying found e =
      rw (submit_active_runs now id text d doc found (ground arith) (ground arith))
        (Grows-job _ _ d d refl refl)

  pub submit-Grows :
      (link : Option ℕ) (mode : RerunMode) → Grows d (submit link now id text mode d).1
  submit-Grows link mode =
      Outcome-keeps (Grows d) d _ _ (submit-atomic link now id text mode d)
        (Grows-same d d refl refl)
        (elim (Option-cases (d.documents id)) [
          | inl missing ↦
              rw (submit_new_runs now id text d mode missing) (Grows-job _ _ d _ refl refl)
          | inr (doc, found) ↦ submit_known-Grows mode doc doc.status found refl
        ])
