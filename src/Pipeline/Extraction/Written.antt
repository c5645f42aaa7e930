-- ===== src/Pipeline/Extraction/Written.antt =====
-- internal/pipeline/extractor.go: what `persist` has written of the entities.
use sayari.Prelude.{
  ℕ, zero, suc, ◌<◌, ◌≡◌, refl, ◌⊎◌, inl, inr, Bool, true, false, some, List, [], ◌∷◌, ◌++◌, Text,
  text_eq_refl, Bool-cases, All, select, arith,
}
use sayari.Domain.{Document, Entity, Token}
use sayari.Domain.Labels.{DocStatus}
use sayari.Store.{Db}
use sayari.Store.Tokens.{in_run, has_key, same_key, new_token}
use sayari.System.Invariant.{updated}
use sayari.Pipeline.Extraction.Upsert.{upserted, insert_kept}
use sayari.Pipeline.Extraction.Jobs.{with_jobs_keeps}
use sayari.Pipeline.Extraction.Runs.{advanced_row, emptied_row, persisted}

-- Each entity has its token in the run.
abbrev pub AllWritten : Text → ℕ → List Token → List Entity → Type 0
AllWritten id run ts = All (λ e. has_key id run e ts ≡ true)

module _ (now : ℕ) (id : Text) (run : ℕ) where
  has_key-append_left :
      (e : Entity) (ts us : List Token)
      → has_key id run e ts ≡ true
      → has_key id run e (ts ++ us) ≡ true
  unfolding has_key
  has_key-append_left e [] us h = absurd (ground (arith, h))
  has_key-append_left e (t ∷ ts) us h = elim (Bool-cases (same_key id run e t)) [
    | inl here ↦ rw here refl
    | inr later ↦ rw later (has_key-append_left e ts us (rw later at h))
  ]

  has_key-new :
      (e : Entity) (k : ℕ) (ts : List Token)
      → has_key id run e (ts ++ new_token k now id run e ∷ []) ≡ true
  unfolding has_key
  has_key-new e k [] = ground (arith, text_eq_refl id, text_eq_refl e.text)
  has_key-new e k (t ∷ ts) = elim (Bool-cases (same_key id run e t)) [
    | inl here ↦ rw here refl
    | inr later ↦ rw later (has_key-new e k ts)
  ]

  insert_kept-has_key :
      (b : Bool) (e : Entity) (d : Db)
      → has_key id run e d.tokens ≡ b
      → has_key id run e (insert_kept now id run b e d).tokens ≡ true
  unfolding insert_kept
  insert_kept-has_key true e d h = h
  insert_kept-has_key false e d h = has_key-new e d.next_token d.tokens

  insert_kept-keeps :
      (b : Bool) (e e' : Entity) (d : Db)
      → has_key id run e' d.tokens ≡ true
      → has_key id run e' (insert_kept now id run b e d).tokens ≡ true
  unfolding insert_kept
  insert_kept-keeps true e e' d h = h
  insert_kept-keeps false e e' d h = has_key-append_left e' d.tokens _ h

  upserted-keeps :
      (es : List Entity) (e' : Entity) (d : Db)
      → has_key id run e' d.tokens ≡ true
      → has_key id run e' (upserted now id run es d).tokens ≡ true
  unfolding upserted
  upserted-keeps [] e' d h = h
  upserted-keeps (e ∷ es) e' d h = upserted-keeps es e' _ (insert_kept-keeps _ e e' d h)

  pub upserted-AllWritten :
      (es : List Entity) (d : Db) → AllWritten id run (upserted now id run es d).tokens es
  unfolding upserted
  upserted-AllWritten [] d = tt
  upserted-AllWritten (e ∷ es) d = (
    upserted-keeps es e _ (insert_kept-has_key (has_key id run e d.tokens) e d refl),
    upserted-AllWritten es _,
  )

-- With tokens to classify the document is CLASSIFYING, and with none it is COMPLETED.
abbrev pub Advanced : Document → Type 0
Advanced doc =
    ((0 < doc.total_tokens) × (doc.status ≡ DocStatus.classifying))
    ⊎ ((doc.total_tokens ≡ 0) × (doc.status ≡ DocStatus.completed))

module _ (now : ℕ) (doc : Document) where
  pub persisted-tokens : (total : ℕ) (u : Db) → (persisted now doc total u).tokens ≡ u.tokens
  unfolding persisted
  persisted-tokens zero u = refl
  persisted-tokens (suc n) u =
      (with_jobs_keeps doc (select (in_run doc.id doc.run_version) u.tokens)
        (record u { documents = updated doc.id (advanced_row now (suc n)) u.documents })).1

  -- The row that a persist leaves.
  pub persisted-row :
      (cur : Document) (total : ℕ) (u : Db)
      → u.documents doc.id ≡ some cur
      → (row : Document) × (((persisted now doc total u).documents doc.id ≡ some row)
          × ((row.run_version ≡ cur.run_version) × ((row.total_tokens ≡ total) × Advanced row)))
  unfolding persisted
  persisted-row cur zero u found = (
    emptied_row now cur,
    (rw (text_eq_refl doc.id, found) refl, (refl, (refl, inr (refl, refl)))),
  )
  persisted-row cur (suc n) u found = (
    advanced_row now (suc n) cur,
    (
      rw ((with_jobs_keeps doc _ _).0, text_eq_refl doc.id, found) refl,
      (refl, (refl, inl (omega arith, refl))),
    ),
  )
