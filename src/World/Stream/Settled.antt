-- ===== src/World/Stream/Settled.antt =====
-- A message that is acknowledged is no pending token's job.
use sayari.Prelude.{
  ℕ, suc, ◌<◌, ◌≡◌, sym, ◌∙◌, ap, subst, inl, inr, some, List, [], ◌∷◌, All, Any-erase, get_elem?,
  erase_idx, arith,
}
use sayari.Domain.{Token}
use sayari.Domain.Labels.{TokenStatus}
use sayari.Store.{Db, OutboxRow}
use sayari.Store.Tokens.{find_token}
use sayari.System.Counts.{OwnedBy, Fenced, Between}
use sayari.System.Invariant.{IsConsistent}
use sayari.Coverage.{IsJobFor, HasJob, Covered}
use sayari.Pipeline.Jobs.{ClassifyJob, decode_classify, decode_classify-encode_classify}
use sayari.Pipeline.Classification.Delivery.{Settled, gone, classified, stale, orphaned, superseded}

abbrev pub Finds : List Token → Token → Type 0
Finds ts t = find_token t.id ts ≡ some t

Finds-cons :
    (x : Token) (xs ts : List Token) (lo hi : ℕ)
    → x.id < lo
    → Between lo hi ts
    → All (Finds xs) ts
    → All (Finds (x ∷ xs)) ts
unfolding find_token
Finds-cons x xs [] lo hi h b all = tt
Finds-cons x xs (t ∷ ts) lo hi h b all =
    (ground (arith, all.0), Finds-cons x xs ts (suc t.id) hi (omega (arith, b.0, h)) b.1 all.1)

-- Where the ids ascend, each token is found by its id.
pub All-Finds : (lo hi : ℕ) (ts : List Token) → Between lo hi ts → All (Finds ts) ts
unfolding find_token
All-Finds lo hi [] b = tt
All-Finds lo hi (t ∷ ts) b = (
  ground arith,
  Finds-cons t ts ts (suc t.id) hi (omega arith) b.1 (All-Finds (suc t.id) hi ts b.1),
)

abbrev pub job_of : Token → ClassifyJob
job_of t = record { token_id = t.id; document_id = t.document_id; run_version = t.run_version }

-- The token is as good as classified: a settled job of a stored token.
pub Settled-classified :
    (d : Db) (t : Token)
    → Finds d.tokens t
    → OwnedBy d.documents t
    → Settled (job_of t) d
    → t.status ≡ TokenStatus.classified
Settled-classified d t found own (gone e) = absurd (ground (arith, e, found))
Settled-classified d t found own (classified t' e status) = ground (arith, e, found, status)
Settled-classified d t found own (stale t' e ne) = absurd (ground (arith, e, found, ne))
Settled-classified d t found (doc, at, run) (orphaned t' e orphan) =
    absurd (ground (arith, e, found, at, orphan))
Settled-classified d t found (doc, at, run) (superseded t' doc' e at' ne) =
    absurd (ground (arith, e, found, at, at', run, ne))

module _ (d : Db) (log : List OutboxRow) (n : ℕ) (r : OutboxRow) (at : get_elem? log n ≡ some r)
    (useless : (t : Token)
      → Finds d.tokens t
      → OwnedBy d.documents t
      → IsJobFor t r
      → t.status ≡ TokenStatus.classified) where
  HasJob-erase :
      (t : Token)
      → Finds d.tokens t
      → OwnedBy d.documents t
      → HasJob d.outbox log t
      → HasJob d.outbox (erase_idx log n) t
  HasJob-erase t found own h is_pending = elim (h is_pending) [
    | inl waiting ↦ inl waiting
    | inr sent ↦ elim (Any-erase (IsJobFor t) log n r at sent) [
      | inl this ↦ absurd (ground (arith, useless t found own this, is_pending))
      | inr other ↦ inr other
    ]
  ]

  Covered-erase_rows :
      (ts : List Token)
      → All (Finds d.tokens) ts
      → Fenced d.documents ts
      → Covered d.outbox log ts
      → Covered d.outbox (erase_idx log n) ts
  Covered-erase_rows [] found own h = tt
  Covered-erase_rows (t ∷ ts) found own h =
      (HasJob-erase t found.0 own.0 h.0, Covered-erase_rows ts found.1 own.1 h.1)

  -- If the message at a place is needed for no pending token, it may go.
  pub Covered-erase :
      IsConsistent d → Covered d.outbox log d.tokens → Covered d.outbox (erase_idx log n) d.tokens
  Covered-erase v h =
      Covered-erase_rows d.tokens (All-Finds 0 d.next_token d.tokens v.ids) v.fenced h

-- The row's job is settled.
pub Settled-useless :
    (d : Db) (r : OutboxRow) (job : ClassifyJob)
    → decode_classify r.payload ≡ some job
    → Settled job d
    → (t : Token) → Finds d.tokens t
    → OwnedBy d.documents t
    → IsJobFor t r
    → t.status ≡ TokenStatus.classified
Settled-useless d r job e h t found own (stream, payload) =
    Settled-classified d t found own (subst (λ j. Settled j d) same h)
  where
    decoded : some job ≡ some (job_of t)
    decoded = sym e ∙ (ap decode_classify payload ∙ decode_classify-encode_classify (job_of t))

    same : job ≡ job_of t
    same = cc (decoded)
