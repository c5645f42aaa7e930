-- ===== src/Service/Consistency.antt =====
-- internal/service/document.go: `Submit` and the invariant of the tables.
use sayari.Prelude.{ℕ, ◌≡◌, refl, inl, inr, Option, none, some, Text, Option-cases, arith}
use sayari.Domain.{Document, RerunMode}
use sayari.Domain.Labels.{DocStatus}
use sayari.Store.{Db}
use sayari.Store.Robust.{Outcome-keeps}
use sayari.Store.Documents.{new_document, reset_row}
use sayari.System.Invariant.{IsConsistent, Inv-updated, Inv-inserted, Inv-reset}
use sayari.Service.{submit}
use sayari.Service.Atomicity.{submit-atomic}
use sayari.Service.Decisions.{
  submit_new_runs, submit_full_runs, submit_completed_runs, submit_failed_runs, submit_active_runs,
}

module _ (now : ℕ) (id text : Text) (d : Db) (v : IsConsistent d) where
  submit_partial-IsConsistent :
      (doc : Document) (s : DocStatus)
      → d.documents id ≡ some doc
      → doc.status ≡ s
      → IsConsistent (submit none now id text RerunMode.partial d).1
  submit_partial-IsConsistent doc DocStatus.completed found e =
      rw (submit_completed_runs now id text d doc found e) v
  submit_partial-IsConsistent doc DocStatus.failed found e =
      rw (submit_failed_runs now id text d doc found e) (
        Inv-updated d.documents d.tokens d.next_token v id _ (λ _. refl)
          (λ old _ h. record {
            same_id = h.same_id;
            total = h.total;
            counted = h.counted;
            complete = λ p. cc;
          }))
  submit_partial-IsConsistent doc DocStatus.pending found e =
      rw (submit_active_runs now id text d doc found (ground arith) (ground arith)) v
  submit_partial-IsConsistent doc DocStatus.extracting found e =
      rw (submit_active_runs now id text d doc found (ground arith) (ground arith)) v
  submit_partial-IsConsistent doc DocStatus.classifying found e =
      rw (submit_active_runs now id text d doc found (ground arith) (ground arith)) v

  submit_known-IsConsistent :
      (mode : RerunMode) (doc : Document)
      → d.documents id ≡ some doc
      → IsConsistent (submit none now id text mode d).1
  submit_known-IsConsistent RerunMode.partial doc found =
      submit_partial-IsConsistent doc doc.status found refl
  submit_known-IsConsistent RerunMode.full doc found =
      rw (submit_full_runs now id text d doc found) (
        Inv-reset d.documents d.tokens d.next_token v id (reset_row now text)
          (λ _. (refl, refl, refl)))

  submit_runs-IsConsistent : (mode : RerunMode) → IsConsistent (submit none now id text mode d).1
  submit_runs-IsConsistent mode = elim (Option-cases (d.documents id)) [
    | inl missing ↦ rw (submit_new_runs now id text d mode missing) (
        Inv-inserted d.documents d.tokens d.next_token v id (new_document now id text) missing refl
          refl refl)
    | inr (doc, found) ↦ submit_known-IsConsistent mode doc found
  ]

  -- A submission keeps the invariant, whatever its mode and wherever the connection fails.
  pub submit-IsConsistent :
      (link : Option ℕ) (mode : RerunMode) → IsConsistent (submit link now id text mode d).1
  submit-IsConsistent link mode =
      Outcome-keeps IsConsistent d _ _ (submit-atomic link now id text mode d) v
        (submit_runs-IsConsistent mode)
