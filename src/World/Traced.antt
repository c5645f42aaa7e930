-- ===== src/World/Traced.antt =====
-- Where the stored answers come from (internal/pipeline/classifier.go, internal/llm/ollama.go).
pub mod Sound
use sayari.Prelude.{
  ℕ, suc, ◌≤◌, ◌≡◌, refl, sym, ap, inl, inr, Option, some, List, [], ◌∷◌, Text, All, Any, ◌==◌,
  Bool-cases, subst, arith,
}
use sayari.Domain.{Token, Classification}
use sayari.Domain.Labels.{TokenStatus}
use sayari.Store.{Db}
use sayari.Store.Real.{to_real}
use sayari.Store.Tx.{Result}
use sayari.Store.Tokens.{find_token, update_token, classified_row}
use sayari.Store.Robust.{Outcome-keeps}
use sayari.System.Counts.{Between, classified_tokens, update_above}
use sayari.Pipeline.Classification.{apply}
use sayari.Pipeline.Classification.Atomicity.{apply-atomic}
use sayari.Pipeline.Classification.Runs.{Applied, apply-Applied}
use sayari.Service.Kept.{submit-AllTokens}
use sayari.Pipeline.Extraction.Kept.{claim-AllTokens, persist-AllTokens}
use sayari.Relay.Keeps.{drain_batch-keeps}
use sayari.World.{World, start, Event, submits, claims, persists, applies, fails, drains, step, run}
use sayari.World.Safety.{IsSafe, step-IsSafe, start-IsSafe, mark_failed-rest}
use sayari.World.Guarantees.{find-All}

-- The event applies, to this token in its run, the answer that the token shows.
unfoldable pub AnsweredBy : Token → Event → Type 0
AnsweredBy t (applies c k run result) =
    (t.id ≡ k)
    × (t.run_version ≡ run)
    × (t.classification ≡ some result.category)
    × (t.confidence ≡ some (to_real result.confidence))
    × (t.reasoning ≡ some result.reasoning)
AnsweredBy t e = ⊥

abbrev Traced : List Event → Token → Type 0
Traced es t = t.status ≡ TokenStatus.classified → Any (AnsweredBy t) es

find-id : (k : ℕ) (t : Token) (ts : List Token) → find_token k ts ≡ some t → t.id ≡ k
unfolding find_token
find-id k t [] found = cc
find-id k t (x ∷ xs) found = elim (Bool-cases (x.id == k)) [
  | inl here ↦ ground (arith, here, found)
  | inr later ↦ find-id k t xs (rw later at found)
]

-- The one token with the id changes, the others stay.
classified-All :
    (P : Token → Type 0) (k now : ℕ) (c : Classification) (t : Token) (lo hi : ℕ) (ts : List Token)
    → Between lo hi ts
    → find_token k ts ≡ some t
    → P (classified_row now c t)
    → All P ts
    → All P (classified_tokens k now c ts)
unfolding find_token update_token
classified-All P k now c t lo hi [] b found p h = cc
classified-All P k now c t lo hi (x ∷ xs) b found p h = elim (Bool-cases (x.id == k)) [
  | inl here ↦
      let same : x ≡ t = ground (arith, here, found) in
      let rest = update_above k now c (suc x.id) hi xs b.1 (ground (arith, here)) in
      rw here (rw same p, subst (All P) (sym rest) h.1)
  | inr later ↦
      rw later (h.0, classified-All P k now c t (suc x.id) hi xs b.1 (rw later at found) p h.1)
]

module _ (P : Token → Type 0) (now k run : ℕ) (c : Classification) (d : Db)
    (ids : Between 0 d.next_token d.tokens)
    (answered : (t : Token) → t.id ≡ k → t.run_version ≡ run → P (classified_row now c t))
    (h : All P d.tokens) where
  stored-All :
      (t : Token)
      → find_token k d.tokens ≡ some t
      → t.run_version ≡ run
      → All P (classified_tokens k now c d.tokens)
  stored-All t found same =
      classified-All P k now c t 0 d.next_token d.tokens ids found
        (answered t (find-id k t d.tokens found) same) h

  Applied-All : (r : Result (Unit {0}) × Db) → Applied now k run c d r → All P r.1.tokens
  Applied-All r (Applied.missing m e) = rw e h
  Applied-All r (Applied.stale t f ne e) = rw e h
  Applied-All r (Applied.already t f s st e) = rw e h
  Applied-All r (Applied.orphaned t f o e) = rw e h
  Applied-All r (Applied.superseded t doc f o ne e) = rw e h
  Applied-All r (Applied.counts t doc f s st own cur more e) = rw e (stored-All t f s)
  Applied-All r (Applied.completes t doc f s st own cur last e) = rw e (stored-All t f s)

  apply-All : (link : Option ℕ) → All P (apply link now k run c d).1.tokens
  apply-All link =
      Outcome-keeps (λ x. All P x.tokens) d _ _ (apply-atomic link now k run c d) h
        (Applied-All _ (apply-Applied now k run c d))

module _ (all : List Event) where
  step-Traced :
      (w : World) (e : Event)
      → IsSafe w
      → ((t : Token) → AnsweredBy t e → Any (AnsweredBy t) all)
      → All (Traced all) w.db.tokens
      → All (Traced all) (step w e).db.tokens
  unfolding step AnsweredBy
  step-Traced w (submits c id text mode) s among h =
      submit-AllTokens (Traced all) c.now id text w.db h c.link mode
  step-Traced w (claims c id) s among h = claim-AllTokens (Traced all) c.now id w.db h c.link
  step-Traced w (persists c doc es) s among h =
      persist-AllTokens (Traced all) c.now doc es (λ k x p. absurd (ground (arith, p))) w.db h
        c.link
  step-Traced w (applies c k version result) s among h =
      apply-All (Traced all) c.now k version result w.db s.consistent.ids
        (λ t same current done.
          among (classified_row c.now result t) (same, current, refl, refl, refl))
        h c.link
  step-Traced w (fails c id) s among h =
      subst (All (Traced all)) (sym (mark_failed-rest w.db c.now id c.link).2) h
  step-Traced w (drains batch m) s among h =
      drain_batch-keeps (λ d. All (Traced all) d.tokens) (λ k d v. v) batch m w.db h

  run-Traced :
      (w : World) (es : List Event)
      → IsSafe w
      → ((t : Token) → Any (AnsweredBy t) es → Any (AnsweredBy t) all)
      → All (Traced all) w.db.tokens
      → All (Traced all) (run w es).db.tokens
  unfolding run
  run-Traced w [] s among h = h
  run-Traced w (e ∷ es) s among h =
      run-Traced (step w e) es (step-IsSafe w e s) (λ t a. among t (inr a))
        (step-Traced w e s (λ t a. among t (inl a)) h)

-- After any events, a token that is classified shows the answer of one of them: an apply to this
-- token, in its own run. It has that answer's category and reasoning, and its confidence rounded to
-- the REAL of the column. No answer for another token or another run is stored.
pub run_answers :
    (es : List Event) (k : ℕ) (t : Token)
    → find_token k (run start es).db.tokens ≡ some t
    → t.status ≡ TokenStatus.classified
    → Any (AnsweredBy t) es
run_answers es k t found done =
    find-All (Traced es) k t (run start es).db.tokens
      (run-Traced es start es start-IsSafe (λ x a. a) tt) found done
