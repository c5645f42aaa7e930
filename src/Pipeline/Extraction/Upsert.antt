-- ===== src/Pipeline/Extraction/Upsert.antt =====
-- internal/store/tokens.go: `UpsertTokens` over a connection that holds, as a change of the table.
use sayari.Prelude.{
  ℕ, ◌+◌, ◌≡◌, refl, ◌∙◌, ap, Bool, true, false, none, some, List, [], ◌∷◌, ◌++◌, Text, inl, inr,
  Bool-cases, arith,
}
use sayari.Domain.{Document, Entity}
use sayari.Store.{Db}
use sayari.Store.Tx.{ok, session}
use sayari.Store.Tokens.{has_key, new_token, insert_token, upsert_tokens}
use sayari.System.Upserted.{Lagging, Lagging-skip, Lagging-insert}

module _ (now : ℕ) (id : Text) (run : ℕ) where
  unfoldable pub insert_kept : Bool → Entity → Db → Db
  insert_kept true e d = record d { next_token = d.next_token + 1 }
  insert_kept false e d = record d {
    tokens = d.tokens ++ new_token d.next_token now id run e ∷ [];
    next_token = d.next_token + 1;
  }

  -- The tables after the entities are inserted one by one.
  unfoldable pub upserted : List Entity → Db → Db
  unfolding insert_kept
  upserted [] d = d
  upserted (e ∷ es) d = upserted es (insert_kept (has_key id run e d.tokens) e d)

  insert_token_runs :
      (e : Entity) (d : Db) (cur : Document)
      → d.documents id ≡ some cur
      → insert_token id run e (session none now d)
        ≡ ok (tt, session none now (insert_kept (has_key id run e d.tokens) e d))
  unfolding insert_token insert_kept
  insert_token_runs e d cur found = elim (Bool-cases (has_key id run e d.tokens)) [
    | inl taken ↦ rw (found, taken)
    | inr new ↦ rw (found, new)
  ]

  insert_kept-documents :
      (b : Bool) (e : Entity) (d : Db) → (insert_kept b e d).documents ≡ d.documents
  unfolding insert_kept
  insert_kept-documents true e d = refl
  insert_kept-documents false e d = refl

  insert_kept-outbox :
      (b : Bool) (e : Entity) (d : Db)
      → ((insert_kept b e d).outbox ≡ d.outbox) × ((insert_kept b e d).next_outbox ≡ d.next_outbox)
  unfolding insert_kept
  insert_kept-outbox true e d = (refl, refl)
  insert_kept-outbox false e d = (refl, refl)

  pub upserted-documents : (es : List Entity) (d : Db) → (upserted es d).documents ≡ d.documents
  unfolding upserted
  upserted-documents [] d = refl
  upserted-documents (e ∷ es) d = upserted-documents es _ ∙ insert_kept-documents _ e d

  pub upserted-outbox :
      (es : List Entity) (d : Db)
      → ((upserted es d).outbox ≡ d.outbox) × ((upserted es d).next_outbox ≡ d.next_outbox)
  unfolding upserted
  upserted-outbox [] d = (refl, refl)
  upserted-outbox (e ∷ es) d =
      let rest = upserted-outbox es (insert_kept (has_key id run e d.tokens) e d) in
      let first = insert_kept-outbox (has_key id run e d.tokens) e d in
      (rest.0 ∙ first.0, rest.1 ∙ first.1)

  -- The loop of statements computes that change.
  pub upsert_tokens_runs :
      (es : List Entity) (d : Db) (cur : Document)
      → d.documents id ≡ some cur
      → upsert_tokens id run es (session none now d) ≡ ok (tt, session none now (upserted es d))
  unfolding upsert_tokens upserted
  upsert_tokens_runs [] d cur found = refl
  upsert_tokens_runs (e ∷ es) d cur found = rw (insert_token_runs e d cur found) (
      upsert_tokens_runs es _ cur
        (ground (arith, ap (λ f. f id) (insert_kept-documents (has_key id run e d.tokens) e d))))

  insert_kept-Lagging :
      (b : Bool) (e : Entity) (d : Db) (cur : Document)
      → d.documents id ≡ some cur
      → cur.run_version ≡ run
      → Lagging id d.documents d.tokens d.next_token
      → Lagging id
          (insert_kept b e d).documents
          (insert_kept b e d).tokens
          (insert_kept b e d).next_token
  unfolding insert_kept
  insert_kept-Lagging true e d cur found same v =
      Lagging-skip id d.documents d.tokens d.next_token v
  insert_kept-Lagging false e d cur found same v =
      rw (← same) (Lagging-insert id d.documents d.tokens d.next_token now e cur found v)

  -- The new tokens keep what the invariant says of every other document.
  pub upserted-Lagging :
      (es : List Entity) (d : Db) (cur : Document)
      → d.documents id ≡ some cur
      → cur.run_version ≡ run
      → Lagging id d.documents d.tokens d.next_token
      → Lagging id (upserted es d).documents (upserted es d).tokens (upserted es d).next_token
  unfolding upserted
  upserted-Lagging [] d cur found same v = v
  upserted-Lagging (e ∷ es) d cur found same v =
      upserted-Lagging es (insert_kept (has_key id run e d.tokens) e d) cur
        (ground (arith, ap (λ f. f id) (insert_kept-documents (has_key id run e d.tokens) e d)))
        same (insert_kept-Lagging _ e d cur found same v)
