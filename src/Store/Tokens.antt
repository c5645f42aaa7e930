-- ===== src/Store/Tokens.antt =====
-- internal/store/tokens.go: the token primitives of a transaction.
use sayari.Prelude.{
  ℕ, ◌+◌, ◌==◌, Bool, true, false, ◌&&◌, Option, none, some, List, [], ◌∷◌, ◌++◌, Text, text_eq,
  select, count_where, if◌then◌else◌,
}
use sayari.Domain.{Document, Token, Entity, Classification}
use sayari.Domain.Labels.{TokenStatus}
use sayari.Store.{Db}
use sayari.Store.Real.{to_real}
use sayari.Store.Tx.{Result, ok, err, not_found, foreign_key, Tx, pure, statement, exec, ◌>>◌}
use sayari.Store.Documents.{one_row, autocommit}

unfoldable pub find_token : ℕ → List Token → Option Token
find_token id [] = none
find_token id (t ∷ ts) = if t.id == id then some t else find_token id ts

-- `document_id = $1 AND run_version = $2`.
abbrev pub in_run : Text → ℕ → Token → Bool
in_run doc_id run_version t = text_eq t.document_id doc_id && t.run_version == run_version

-- `tokens_natural_key`: UNIQUE (document_id, run_version, sentence, char_offset, text).
abbrev pub same_key : Text → ℕ → Entity → Token → Bool
same_key doc_id run_version e t =
    in_run doc_id run_version t
    && (t.position.sentence == e.position.sentence
        && (t.position.char_offset == e.position.char_offset && text_eq t.text e.text))

unfoldable pub has_key : Text → ℕ → Entity → List Token → Bool
has_key doc_id run_version e [] = false
has_key doc_id run_version e (t ∷ ts) =
    let rest = has_key doc_id run_version e ts in
    if same_key doc_id run_version e t then true else rest

abbrev pub new_token : ℕ → ℕ → Text → ℕ → Entity → Token
new_token id now doc_id run_version e = record {
  id = id;
  document_id = doc_id;
  run_version = run_version;
  text = e.text;
  context = e.context;
  position = e.position;
  status = TokenStatus.pending;
  classification = none;
  confidence = none;
  reasoning = none;
  created_at = now;
  classified_at = none;
}

-- `ON CONFLICT … DO NOTHING`; the sequence moves on either way. The document must exist.
abbrev pub insert_or_skip :
    Option Document → Bool → ℕ → Text → ℕ → Entity → Db → Result (Unit {0} × Db)
insert_or_skip none taken now doc_id run_version e d = err foreign_key
insert_or_skip (some doc) true now doc_id run_version e d =
    ok (tt, record d { next_token = d.next_token + 1 })
insert_or_skip (some doc) false now doc_id run_version e d = ok (
  tt,
  record d {
    tokens = d.tokens ++ new_token d.next_token now doc_id run_version e ∷ [];
    next_token = d.next_token + 1;
  },
)

unfoldable pub insert_token : Text → ℕ → Entity → Tx (Unit {0})
unfolding has_key
insert_token doc_id run_version e = statement λ now d.
    insert_or_skip (d.documents doc_id) (has_key doc_id run_version e d.tokens) now doc_id
      run_version e d

-- `Tx.UpsertTokens`: one statement for each entity.
unfoldable pub upsert_tokens : Text → ℕ → List Entity → Tx (Unit {0})
unfolding insert_token
upsert_tokens doc_id run_version [] = pure tt
upsert_tokens doc_id run_version (e ∷ es) =
    insert_token doc_id run_version e >> upsert_tokens doc_id run_version es

-- `Tx.CountTokens`.
unfoldable pub count_tokens : Text → ℕ → Tx ℕ
count_tokens doc_id run_version =
    statement (λ now d. ok (count_where (in_run doc_id run_version) d.tokens, d))

-- `Tx.ListTokensForRun`: the table is in the order of the ids.
unfoldable pub list_tokens_for_run : Text → ℕ → Tx (List Token)
list_tokens_for_run doc_id run_version =
    statement (λ now d. ok (select (in_run doc_id run_version) d.tokens, d))

-- `Store.GetToken`.
unfoldable pub get_token : Option ℕ → ℕ → ℕ → Db → Result Token × Db
unfolding find_token
get_token link now id = autocommit link now (λ now d. one_row (find_token id d.tokens) not_found d)

-- `Tx.GetTokenForUpdate`.
unfoldable pub get_token_for_update : ℕ → Tx Token
unfolding find_token
get_token_for_update id = statement (λ now d. one_row (find_token id d.tokens) not_found d)

-- The column `confidence` is a REAL.
abbrev pub classified_row : ℕ → Classification → Token → Token
classified_row now c t = record t {
  status = TokenStatus.classified;
  classification = some c.category;
  confidence = some (to_real c.confidence);
  reasoning = some c.reasoning;
  classified_at = some now;
}

-- `UPDATE tokens SET … WHERE id = …`.
unfoldable pub update_token : ℕ → (Token → Token) → List Token → List Token
update_token id f [] = []
update_token id f (t ∷ ts) = (if t.id == id then f t else t) ∷ update_token id f ts

-- `Tx.SetTokenClassified`.
unfoldable pub set_token_classified : ℕ → Classification → Tx (Unit {0})
unfolding update_token
set_token_classified id c =
    exec (λ now d. record d { tokens = update_token id (classified_row now c) d.tokens })
