-- ===== src/World/Safety.antt =====
-- What holds of the system after any events.
use sayari.Prelude.{
  ℕ, zero, suc, ◌≡◌, refl, inl, inr, Option, none, some, List, [], ◌∷◌, ◌++◌, Text, Any-append_left,
  Any-append_right, arith,
}
use sayari.Domain.{Token}
use sayari.Store.{Db, OutboxRow}
use sayari.Store.Documents.{mark_failed}
use sayari.System.Growth.{Grows-rows}
use sayari.System.Invariant.{IsConsistent, Inv-updated}
use sayari.Service.Consistency.{submit-IsConsistent}
use sayari.Service.Growth.{submit-Grows}
use sayari.Pipeline.Extraction.Consistency.{claim-IsConsistent, persist-IsConsistent}
use sayari.Pipeline.Extraction.Growth.{claim-Grows, persist-Grows}
use sayari.Pipeline.Classification.Consistency.{apply-IsConsistent}
use sayari.Coverage.{IsJobFor, HasJob, Covered}
use sayari.Coverage.Submission.{submit-Covered}
use sayari.Coverage.Extraction.{claim-Covered, persist-Covered}
use sayari.Coverage.Classification.{apply-Grows, apply-Covered}
use sayari.Relay.{Meeting, drain_batch}
use sayari.Relay.Drained.{RowsBetween, drain_batch-Delivered}
use sayari.Relay.Keeps.{drain_batch-keeps, drain_batch-RowsBetween}
use sayari.World.{World, start, Event, submits, claims, persists, applies, fails, drains, step, run}

-- The manifests agree with the tokens, the outbox is in order, and no pending token lacks its job.
pub record IsSafe (w : World) : Type 0 where
  pub consistent : IsConsistent w.db
  pub rows : RowsBetween 0 w.db.next_outbox w.db.outbox
  pub covered : Covered w.db.outbox w.published w.db.tokens

pub start-IsSafe : IsSafe start
start-IsSafe = record {
  consistent = record { documents = λ id doc e. cc; fenced = tt; ids = omega arith };
  rows = omega arith;
  covered = tt;
}

module _ (d : Db) (now : ℕ) (id : Text) where
  mark_failed-IsConsistent :
      (link : Option ℕ) → IsConsistent d → IsConsistent (mark_failed link now id d).1
  unfolding mark_failed
  mark_failed-IsConsistent (some zero) v = v
  mark_failed-IsConsistent _ v =
      Inv-updated d.documents d.tokens d.next_token v id _ (λ _. refl)
        (λ old _ h. record {
          same_id = h.same_id;
          total = h.total;
          counted = h.counted;
          complete = λ p. cc;
        })

  pub mark_failed-rest :
      (link : Option ℕ)
      → let d' = (mark_failed link now id d).1 in
        (d'.outbox ≡ d.outbox) × (d'.next_outbox ≡ d.next_outbox) × (d'.tokens ≡ d.tokens)
  unfolding mark_failed
  mark_failed-rest none = (refl, refl, refl)
  mark_failed-rest (some zero) = (refl, refl, refl)
  mark_failed-rest (some (suc n)) = (refl, refl, refl)

HasJob-drain :
    (batch : ℕ) (m : Meeting) (d : Db) (log : List OutboxRow) (t : Token)
    → RowsBetween 0 d.next_outbox d.outbox
    → HasJob d.outbox log t
    → HasJob (drain_batch batch m d).0.1.outbox (log ++ (drain_batch batch m d).1) t
HasJob-drain batch m d log t b h p = elim (h p) [
  | inl waiting ↦ elim (drain_batch-Delivered (IsJobFor t) batch m d b waiting) [
    | inl still ↦ inl still
    | inr sent ↦ inr (Any-append_right (IsJobFor t) log _ sent)
  ]
  | inr sent ↦ inr (Any-append_left (IsJobFor t) log _ sent)
]

Covered-drain :
    (batch : ℕ) (m : Meeting) (d : Db) (log : List OutboxRow) (ts : List Token)
    → RowsBetween 0 d.next_outbox d.outbox
    → Covered d.outbox log ts
    → Covered (drain_batch batch m d).0.1.outbox (log ++ (drain_batch batch m d).1) ts
Covered-drain batch m d log [] b c = tt
Covered-drain batch m d log (t ∷ ts) b c =
    (HasJob-drain batch m d log t b c.0, Covered-drain batch m d log ts b c.1)

drain-tokens : (batch : ℕ) (m : Meeting) (d : Db) → (drain_batch batch m d).0.1.tokens ≡ d.tokens
drain-tokens batch m d = drain_batch-keeps (λ x. x.tokens ≡ d.tokens) (λ k x e. e) batch m d refl

-- One transaction of any kind, at any input and over any connection, keeps this: the manifests
-- agree with the token table, each token is of its document's current run, token ids and outbox
-- rows are in order, and each token that is not classified has its classify job in the outbox or
-- among the published rows.
pub step-IsSafe : (w : World) (e : Event) → IsSafe w → IsSafe (step w e)
unfolding step
step-IsSafe w (submits c id text mode) s = record {
  consistent = submit-IsConsistent c.now id text w.db s.consistent c.link mode;
  rows = Grows-rows (submit-Grows c.now id text w.db c.link mode) s.rows;
  covered = submit-Covered c.now id text w.db w.published s.covered c.link mode;
}
step-IsSafe w (claims c id) s = record {
  consistent = claim-IsConsistent c.now id w.db s.consistent c.link;
  rows = Grows-rows (claim-Grows c.now id w.db c.link) s.rows;
  covered = claim-Covered c.now id w.db w.published s.covered c.link;
}
step-IsSafe w (persists c doc es) s = record {
  consistent = persist-IsConsistent c.now doc es w.db s.consistent c.link;
  rows = Grows-rows (persist-Grows c.now doc es w.db c.link) s.rows;
  covered = persist-Covered c.now doc es w.db w.published s.covered c.link;
}
step-IsSafe w (applies c token_id run result) s = record {
  consistent = apply-IsConsistent c.now token_id run result w.db s.consistent c.link;
  rows = Grows-rows (apply-Grows c.now token_id run result w.db c.link) s.rows;
  covered = apply-Covered c.now token_id run result w.db w.published s.covered c.link;
}
step-IsSafe w (fails c id) s =
    let rest = mark_failed-rest w.db c.now id c.link in
    record {
      consistent = mark_failed-IsConsistent w.db c.now id c.link s.consistent;
      rows = rw (rest.0, rest.1) s.rows;
      covered = rw (rest.0, rest.2) s.covered;
    }
step-IsSafe w (drains batch m) s = record {
  consistent = drain_batch-keeps IsConsistent (λ k d v. v) batch m w.db s.consistent;
  rows = drain_batch-RowsBetween batch m w.db s.rows;
  covered =
      rw (drain-tokens batch m w.db)
        (Covered-drain batch m w.db w.published w.db.tokens s.rows s.covered);
}

pub run-IsSafe : (w : World) (es : List Event) → IsSafe w → IsSafe (run w es)
unfolding run
run-IsSafe w [] s = s
run-IsSafe w (e ∷ es) s = run-IsSafe (step w e) es (step-IsSafe w e s)

pub run-start-IsSafe : (es : List Event) → IsSafe (run start es)
run-start-IsSafe es = run-IsSafe start es start-IsSafe
