-- ===== src/Service/Atomicity.antt =====
-- internal/service/document.go: `Submit` over a failing connection, and what it keeps.
use sayari.Prelude.{ℕ, refl, Option, none, Text}
use sayari.Domain.{Document, RerunMode}
use sayari.Domain.Labels.{DocStatus}
use sayari.Store.{Db}
use sayari.Store.Tx.{
  not_found, stale_write, no_rows, duplicate_key, foreign_key, unavailable, upstream, Result,
  Session, session, Tx,
}
use sayari.Store.Robust.{
  Agree, cut, fails, done, Robust, Robust-pure, Robust-statement, Robust-bind, robust_rules,
  Outcome, within_tx-atomic,
}
use sayari.Service.{
  SubmitResult, resume, switch_found, submit_new, submit_partial, submit_existing,
  enqueue_if_accepted, submit_tx, submit,
}

module _ {A B : Type 0} (m : Tx A) (missing : Tx B) (found : A → Tx B) (km : Robust m)
    (kmissing : Robust missing) (kfound : (a : A) → Robust (found a)) where
  Agree-resume :
      (link : Option ℕ) (now : ℕ) (d : Db) (r r0 : Result (A × Session))
      → Agree now r r0
      → Agree now
          (resume r (session link now d) missing found)
          (resume r0 (session none now d) missing found)
  Agree-resume link now d r r0 (cut e) = rw e (cut refl)
  Agree-resume link now d r r0 (fails not_found p q) = rw (p, q) (kmissing.at link now d)
  Agree-resume link now d r r0 (fails stale_write p q) = rw (p, q) (fails stale_write refl refl)
  Agree-resume link now d r r0 (fails no_rows p q) = rw (p, q) (fails no_rows refl refl)
  Agree-resume link now d r r0 (fails duplicate_key p q) = rw (p, q) (fails duplicate_key refl refl)
  Agree-resume link now d r r0 (fails foreign_key p q) = rw (p, q) (fails foreign_key refl refl)
  Agree-resume link now d r r0 (fails unavailable p q) = rw (p, q) (fails unavailable refl refl)
  Agree-resume link now d r r0 (fails upstream p q) = rw (p, q) (fails upstream refl refl)
  Agree-resume link now d r r0 (done a link' d' p q) = rw (p, q) ((kfound a).at link' now d')

  Robust-switch : Robust (switch_found m missing found)
  Robust-switch = record { at = λ link now d. Agree-resume link now d _ _ (km.at link now d) }

Robust-submit_new : (id text : Text) → Robust (submit_new id text)
unfolding submit_new
Robust-submit_new id text = search (robust_rules) depth 9

Robust-submit_partial :
    (s : DocStatus) (id : Text) (doc : Document) → Robust (submit_partial s id doc)
unfolding submit_partial
Robust-submit_partial DocStatus.completed id doc = Robust-pure _
Robust-submit_partial DocStatus.failed id doc = search (robust_rules) depth 9
Robust-submit_partial DocStatus.pending id doc = Robust-pure _
Robust-submit_partial DocStatus.extracting id doc = Robust-pure _
Robust-submit_partial DocStatus.classifying id doc = Robust-pure _

Robust-submit_existing :
    (mode : RerunMode) (id text : Text) (doc : Document) → Robust (submit_existing mode id text doc)
unfolding submit_existing
Robust-submit_existing RerunMode.full id text doc = search (robust_rules) depth 9
Robust-submit_existing RerunMode.partial id text doc = Robust-submit_partial doc.status id doc

Robust-enqueue_if_accepted : (res : SubmitResult) → Robust (enqueue_if_accepted res)
unfolding enqueue_if_accepted
Robust-enqueue_if_accepted res = search (robust_rules) depth 9

Robust-submit_tx : (id text : Text) (mode : RerunMode) → Robust (submit_tx id text mode)
unfolding submit_tx
Robust-submit_tx id text mode =
    Robust-bind _ _
      (Robust-switch _ _ _ (Robust-statement _) (Robust-submit_new id text)
        (Robust-submit_existing mode id text))
      Robust-enqueue_if_accepted

-- Wherever the connection fails in `Submit`, the tables are left as they were and the caller sees
-- the failure; else `Submit` does what it does over a connection that holds.
pub submit-atomic :
    (link : Option ℕ) (now : ℕ) (id text : Text) (mode : RerunMode) (d : Db)
    → Outcome d (submit link now id text mode d) (submit none now id text mode d)
unfolding submit
submit-atomic link now id text mode d =
    within_tx-atomic link now (submit_tx id text mode) d (Robust-submit_tx id text mode)
