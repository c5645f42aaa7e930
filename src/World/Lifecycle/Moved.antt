-- ===== src/World/Lifecycle/Moved.antt =====
-- Each transaction moves the manifest of a document as World.Lifecycle says.
use mathlib.Core.Option
use sayari.Prelude.{
  ℕ, zero, ◌≡◌, refl, sym, subst, inl, inr, Bool-cases, Option-cases, Option, none, some, Text,
  text_eq, text_eq→eq, arith,
}
use sayari.Domain.{Document, RerunMode}
use sayari.Domain.Labels.{DocStatus}
use sayari.Store.{Db}
use sayari.Store.Robust.{Outcome-keeps}
use sayari.Store.Documents.{new_document, reset_row, mark_failed}
use sayari.System.Invariant.{inserted, updated}
use sayari.Service.{submit}
use sayari.Service.Atomicity.{submit-atomic}
use sayari.Service.Decisions.{
  submit_new_runs, submit_full_runs, submit_completed_runs, submit_failed_runs, submit_active_runs,
}
use sayari.Pipeline.Extraction.{Conn, claim}
use sayari.Pipeline.Extraction.Atomicity.{claim-atomic}
use sayari.Pipeline.Extraction.Runs.{
  started_row, claim_missing_runs, claim_pending_runs, claim_started_runs,
}
use sayari.World.{Event, submits, claims, fails}
use sayari.World.Lifecycle.{
  Moves, stays, submitted, reruns, resumes, starts, gives_up, manifest_of, manifest,
}

-- An update of a row moves the manifest if the change of the row does.
pub Moves-updated :
    (e : Event) (id j : Text) (f : Document → Document) (docs : Text → Option Document)
    → ((doc : Document)
        → j ≡ id
        → docs j ≡ some doc
        → Moves id e (some (manifest_of doc)) (some (manifest_of (f doc))))
    → Moves id e (Option.map manifest_of (docs id)) (Option.map manifest_of (updated j f docs id))
Moves-updated e id j f docs moves = elim (Bool-cases (text_eq id j)) [
  | inr other ↦ rw other (stays e _)
  | inl same ↦ elim (Option-cases (docs id)) [
    | inl missing ↦ rw (same, missing) (stays e none)
    | inr (doc, found) ↦
        let here : id ≡ j = text_eq→eq id j same in
        rw (same, found) (moves doc (sym here) (subst (λ x. docs x ≡ some doc) here found))
  ]
]

Moves-inserted :
    (c : Conn) (mode : RerunMode) (id j : Text) (now : ℕ) (text : Text)
    (docs : Text → Option Document)
    → docs j ≡ none
    → Moves id
        (submits c j text mode)
        (Option.map manifest_of (docs id))
        (Option.map manifest_of (inserted j (new_document now j text) docs id))
Moves-inserted c mode id j now text docs missing = elim (Bool-cases (text_eq id j)) [
  | inr other ↦ rw other (stays _ _)
  | inl same ↦
      let here : j ≡ id = sym (text_eq→eq id j same) in
      rw (same, subst (λ x. docs x ≡ none) here missing) (submitted c j text mode here)
]

module _ (id : Text) (d : Db) (c : Conn) where
  abbrev pub MovesTo : Event → Db → Type 0
  MovesTo e d' = Moves id e (manifest id d) (manifest id d')

  module _ (j text : Text) where
    submit_partial-Moves :
        (doc : Document) (s : DocStatus)
        → d.documents j ≡ some doc
        → doc.status ≡ s
        → MovesTo
            (submits c j text RerunMode.partial)
            (submit none c.now j text RerunMode.partial d).1
    submit_partial-Moves doc DocStatus.completed found e =
        rw (submit_completed_runs c.now j text d doc found e) (stays _ _)
    submit_partial-Moves doc DocStatus.failed found e =
        rw (submit_failed_runs c.now j text d doc found e) (
          Moves-updated _ id j _ d.documents
            (λ old here at. resumes c j text (manifest_of old) here (ground (arith, found, at, e))))
    submit_partial-Moves doc s found e =
        rw (submit_active_runs c.now j text d doc found (ground arith) (ground arith)) (stays _ _)

    submit_known-Moves :
        (mode : RerunMode) (doc : Document)
        → d.documents j ≡ some doc
        → MovesTo (submits c j text mode) (submit none c.now j text mode d).1
    submit_known-Moves RerunMode.partial doc found = submit_partial-Moves doc doc.status found refl
    submit_known-Moves RerunMode.full doc found = rw (submit_full_runs c.now j text d doc found) (
        Moves-updated _ id j (reset_row c.now text) d.documents
          (λ old here at. reruns c j text (manifest_of old) here))

    pub submit-Moves :
        (mode : RerunMode) → MovesTo (submits c j text mode) (submit c.link c.now j text mode d).1
    submit-Moves mode =
        Outcome-keeps (MovesTo (submits c j text mode)) d _ _
          (submit-atomic c.link c.now j text mode d) (stays _ _)
          (elim (Option-cases (d.documents j)) [
            | inl missing ↦
                rw (submit_new_runs c.now j text d mode missing)
                  (Moves-inserted c mode id j c.now text d.documents missing)
            | inr (doc, found) ↦ submit_known-Moves mode doc found
          ])

  module _ (j : Text) where
    claim_known-Moves :
        (doc : Document) (s : DocStatus)
        → d.documents j ≡ some doc
        → doc.status ≡ s
        → MovesTo (claims c j) (claim none c.now j d).1
    claim_known-Moves doc DocStatus.pending found e =
        rw (claim_pending_runs c.now j d doc found e) (
          Moves-updated _ id j (started_row c.now) d.documents
            (λ old here at. starts c j (manifest_of old) here (ground (arith, found, at, e))))
    claim_known-Moves doc s found e =
        rw (claim_started_runs c.now j d doc found (ground arith)) (stays _ _)

    pub claim-Moves : MovesTo (claims c j) (claim c.link c.now j d).1
    claim-Moves =
        Outcome-keeps (MovesTo (claims c j)) d _ _ (claim-atomic c.link c.now j d) (stays _ _)
          (elim (Option-cases (d.documents j)) [
            | inl missing ↦ rw (claim_missing_runs c.now j d missing) (stays _ _)
            | inr (doc, found) ↦ claim_known-Moves doc doc.status found refl
          ])

    failed-Moves : (link : Option ℕ) → MovesTo (fails c j) (mark_failed link c.now j d).1
    unfolding mark_failed
    failed-Moves (some zero) = stays _ _
    failed-Moves _ =
        Moves-updated _ id j _ d.documents (λ old here at. gives_up c j (manifest_of old) here)

    pub mark_failed-Moves : MovesTo (fails c j) (mark_failed c.link c.now j d).1
    mark_failed-Moves = failed-Moves c.link
