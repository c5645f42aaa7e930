-- ===== src/World/Guarantees.antt =====
-- What users and operators rely on, after any events from the empty tables.
use sayari.Prelude.{
  ℕ, ◌≤◌, ◌≡◌, ◌⊎◌, some, List, [], ◌∷◌, Text, count_where, All, Any, arith, ◌==◌, Bool-cases, inl,
  inr, subst,
}
use sayari.Domain.{Document, Token}
use sayari.Domain.Labels.{DocStatus, TokenStatus}
use sayari.Store.Documents.{belongs_to}
use sayari.Store.Tokens.{find_token}
use sayari.System.Counts.{classified_of, classified-le, find_owned, find_classified}
use sayari.Coverage.{IsJobFor, HasJob}
use sayari.World.{start, Event, run}
use sayari.World.Safety.{run-start-IsSafe}

pub find-All :
    (P : Token → Type 0) (k : ℕ) (t : Token) (ts : List Token)
    → All P ts
    → find_token k ts ≡ some t
    → P t
unfolding find_token
find-All P k t [] h found = absurd (ground (arith, found))
find-All P k t (x ∷ xs) h found = elim (Bool-cases (x.id == k)) [
  | inl here ↦ subst P (ground (arith, here, found)) h.0
  | inr later ↦ find-All P k t xs h.1 (rw later at found)
]

module _ (es : List Event) (id : Text) (doc : Document)
    (found : (run start es).db.documents id ≡ some doc) where
  -- After any events, what a document's manifest shows is what the token table holds: the total
  -- counts the document's tokens, the counter those that are classified, and it never passes the
  -- total.
  pub run_progress :
      (doc.id ≡ id)
      × (doc.total_tokens ≡ count_where (belongs_to id) (run start es).db.tokens)
      × (doc.classified_count ≡ count_where (classified_of id) (run start es).db.tokens)
      × (doc.classified_count ≤ doc.total_tokens)
  run_progress =
      let h = (run-start-IsSafe es).consistent.documents id doc found in
      (
        h.same_id,
        h.total,
        h.counted,
        omega (arith, h.total, h.counted, classified-le id (run start es).db.tokens),
      )

  -- After any events, each token of a document whose status is COMPLETED is classified.
  pub run_completed :
      (k : ℕ) (t : Token)
      → doc.status ≡ DocStatus.completed
      → find_token k (run start es).db.tokens ≡ some t
      → t.document_id ≡ id
      → t.status ≡ TokenStatus.classified
  run_completed k t completed at own =
      let h = (run-start-IsSafe es).consistent.documents id doc found in
      find_classified id k t (run start es).db.tokens
        (omega (arith, h.total, h.counted, h.complete completed)) at own

-- After any events, each token that is not classified has its classify job in the outbox, or the
-- broker has taken it.
pub run_no_lost_work :
    (es : List Event) (k : ℕ) (t : Token)
    → find_token k (run start es).db.tokens ≡ some t
    → t.status ≡ TokenStatus.pending
    → Any (IsJobFor t) (run start es).db.outbox ⊎ Any (IsJobFor t) (run start es).published
run_no_lost_work es k t at is_pending =
    find-All (HasJob (run start es).db.outbox (run start es).published) k t (run start es).db.tokens
      (run-start-IsSafe es).covered at is_pending

-- After any events, each token belongs to a document that exists, and is of that document's current
-- run: no token of a superseded run is left.
pub run_current_tokens :
    (es : List Event) (k : ℕ) (t : Token)
    → find_token k (run start es).db.tokens ≡ some t
    → (doc : Document) × ((run start es).db.documents t.document_id ≡ some doc)
      × (t.run_version ≡ doc.run_version)
run_current_tokens es k t at =
    find_owned (run start es).db.documents k (run start es).db.tokens t
      (run-start-IsSafe es).consistent.fenced at
