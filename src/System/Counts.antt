-- ===== src/System/Counts.antt =====
-- Counting the tokens of a document, under each change that a statement makes to the table.
use sayari.Prelude.{
  ℕ, suc, ◌+◌, ◌≤◌, ◌<◌, ◌≡◌, refl, ◌≢◌, Bool, true, false, not, ◌&&◌, Option, none, some, List, [],
  ◌∷◌, ◌++◌, Text, text_eq_iff, text_eq_refl, select, count_where, All, arith,
}
use sayari.Domain.{Document, Token, Classification}
use sayari.Domain.Labels.{TokenStatus}
use sayari.Store.{Db}
use sayari.Store.Documents.{belongs_to}
use sayari.Store.Tokens.{in_run, find_token, update_token, classified_row}

-- Every token of the table.
abbrev pub AllTokens : (Token → Type 0) → Db → Type 0
AllTokens P d = All P d.tokens

abbrev pub is_classified : TokenStatus → Bool
is_classified TokenStatus.pending = false
is_classified TokenStatus.classified = true

abbrev pub classified_of : Text → Token → Bool
classified_of id t = belongs_to id t && is_classified t.status

-- The document of a token exists, and is in the token's run.
abbrev pub OwnedBy : (Text → Option Document) → Token → Type 0
OwnedBy docs t =
    (doc : Document) × (docs t.document_id ≡ some doc) × (t.run_version ≡ doc.run_version)

abbrev pub Fenced : (Text → Option Document) → List Token → Type 0
Fenced docs = All (OwnedBy docs)

-- The ids ascend from `lo` on and stay below `hi`.
abbrev pub Between : ℕ → ℕ → List Token → Type 0
Between lo hi [] = lo ≤ hi
Between lo hi (t ∷ ts) = (lo ≤ t.id) × Between (suc t.id) hi ts

in_run_of_owned :
    (docs : Text → Option Document) (id : Text) (doc : Document) (t : Token)
    → docs id ≡ some doc
    → OwnedBy docs t
    → in_run id doc.run_version t ≡ belongs_to id t
in_run_of_owned docs id doc t e (own, found, same) = ground (arith, text_eq_iff t.document_id id)

-- In a fenced table the tokens of the current run are all the document's tokens.
pub count-in_run :
    (docs : Text → Option Document) (id : Text) (doc : Document) (ts : List Token)
    → docs id ≡ some doc
    → Fenced docs ts
    → count_where (in_run id doc.run_version) ts ≡ count_where (belongs_to id) ts
count-in_run docs id doc [] e f = refl
count-in_run docs id doc (t ∷ ts) e f =
    rw (in_run_of_owned docs id doc t e f.0, count-in_run docs id doc ts e f.1)

pub count_no_document :
    (docs : Text → Option Document) (id : Text) (ts : List Token)
    → docs id ≡ none
    → Fenced docs ts
    → count_where (belongs_to id) ts ≡ 0
count_no_document docs id [] e f = refl
count_no_document docs id (t ∷ ts) e f =
    ground (arith, text_eq_iff t.document_id id, count_no_document docs id ts e f.1)

pub classified-le :
    (id : Text) (ts : List Token)
    → count_where (classified_of id) ts ≤ count_where (belongs_to id) ts
classified-le id [] = omega arith
classified-le id (t ∷ ts) = ground (arith, classified-le id ts)

module _ (id : Text) where
  -- `DELETE FROM tokens WHERE document_id = id`.
  abbrev pub others_of : List Token → List Token
  others_of = select (λ t. not (belongs_to id t))

  pub count-others_self : (ts : List Token) → count_where (belongs_to id) (others_of ts) ≡ 0
  count-others_self [] = refl
  count-others_self (t ∷ ts) = ground (arith, count-others_self ts)

  pub count-others_ne :
      (p : Token → Bool) (ts : List Token)
      → ((t : Token) → belongs_to id t ≡ true → p t ≡ false)
      → count_where p (others_of ts) ≡ count_where p ts
  count-others_ne p [] h = refl
  count-others_ne p (t ∷ ts) h = ground (arith, h t, count-others_ne p ts h)

  pub All-others {κ} : (P : Token → Type κ) (ts : List Token) → All P ts → All P (others_of ts)
  All-others P [] h = tt
  All-others P (t ∷ ts) h = ground (arith, All-others P ts h.1)

  Between-weaken : (lo k hi : ℕ) (ts : List Token) → lo ≤ k → Between k hi ts → Between lo hi ts
  Between-weaken lo k hi [] h b = omega arith
  Between-weaken lo k hi (t ∷ ts) h b = (omega arith, b.1)

  pub Between-others :
      (lo hi : ℕ) (ts : List Token) → Between lo hi ts → Between lo hi (others_of ts)
  Between-others lo hi [] b = b
  Between-others lo hi (t ∷ ts) b =
      ground
        (arith, Between-others (suc t.id) hi ts b.1, Between-weaken lo (suc t.id) hi (others_of ts))

-- A new token stands at the end, with the next id of the sequence.
pub Between-append :
    (lo hi : ℕ) (ts : List Token) (t : Token)
    → t.id ≡ hi
    → Between lo hi ts
    → Between lo (hi + 1) (ts ++ t ∷ [])
Between-append lo hi [] t e b = omega arith
Between-append lo hi (x ∷ xs) t e b = (b.0, Between-append (suc x.id) hi xs t e b.1)

pub Between-grow : (lo hi : ℕ) (ts : List Token) → Between lo hi ts → Between lo (hi + 1) ts
Between-grow lo hi [] b = omega arith
Between-grow lo hi (t ∷ ts) b = (b.0, Between-grow (suc t.id) hi ts b.1)

find-ge : (k lo hi : ℕ) (ts : List Token) → Between lo hi ts → k < lo → find_token k ts ≡ none
unfolding find_token
find-ge k lo hi [] b h = refl
find-ge k lo hi (t ∷ ts) b h = ground (arith, find-ge k (suc t.id) hi ts b.1)

-- `UPDATE tokens SET … WHERE id = k`, by a change that leaves id, document and run alone.
module _ (k : ℕ) (now : ℕ) (c : Classification) where
  abbrev pub classified_tokens : List Token → List Token
  classified_tokens = update_token k (classified_row now c)

  pub update_above :
      (lo hi : ℕ) (ts : List Token) → Between lo hi ts → k < lo → classified_tokens ts ≡ ts
  unfolding update_token
  update_above lo hi [] b h = refl
  update_above lo hi (t ∷ ts) b h = ground (arith, update_above (suc t.id) hi ts b.1)

  pub Between-update :
      (lo hi : ℕ) (ts : List Token) → Between lo hi ts → Between lo hi (classified_tokens ts)
  unfolding update_token
  Between-update lo hi [] b = b
  Between-update lo hi (t ∷ ts) b = ground (arith, Between-update (suc t.id) hi ts b.1)

  pub Fenced-update :
      (docs : Text → Option Document) (ts : List Token)
      → Fenced docs ts
      → Fenced docs (classified_tokens ts)
  unfolding update_token
  Fenced-update docs [] f = tt
  Fenced-update docs (t ∷ ts) f = ground (arith, Fenced-update docs ts f.1)

  pub count_belongs-update :
      (id : Text) (ts : List Token)
      → count_where (belongs_to id) (classified_tokens ts) ≡ count_where (belongs_to id) ts
  unfolding update_token
  count_belongs-update id [] = refl
  count_belongs-update id (t ∷ ts) = ground (arith, count_belongs-update id ts)

  -- The classified tokens of the token's document are one more.
  pub count_classified-update :
      (lo hi : ℕ) (ts : List Token) (tok : Token)
      → Between lo hi ts
      → find_token k ts ≡ some tok
      → tok.status ≡ TokenStatus.pending
      → count_where (classified_of tok.document_id) (classified_tokens ts)
        ≡ suc (count_where (classified_of tok.document_id) ts)
  unfolding update_token find_token
  count_classified-update lo hi [] tok b e p = cc
  count_classified-update lo hi (t ∷ ts) tok b e p = ground (
    arith,
    text_eq_refl t.document_id,
    update_above (suc t.id) hi ts b.1,
    count_classified-update (suc t.id) hi ts tok b.1,
  )

  pub count_classified-update_ne :
      (lo hi : ℕ) (ts : List Token) (tok : Token) (id : Text)
      → Between lo hi ts
      → find_token k ts ≡ some tok
      → tok.document_id ≢ id
      → count_where (classified_of id) (classified_tokens ts) ≡ count_where (classified_of id) ts
  unfolding update_token find_token
  count_classified-update_ne lo hi [] tok id b e p = refl
  count_classified-update_ne lo hi (t ∷ ts) tok id b e p = ground (
    arith,
    text_eq_iff t.document_id id,
    update_above (suc t.id) hi ts b.1,
    count_classified-update_ne (suc t.id) hi ts tok id b.1,
  )

pub find_owned :
    (docs : Text → Option Document) (k : ℕ) (ts : List Token) (tok : Token)
    → Fenced docs ts
    → find_token k ts ≡ some tok
    → OwnedBy docs tok
unfolding find_token
find_owned docs k [] tok f e = cc
find_owned docs k (t ∷ ts) tok f e = ground (arith, find_owned docs k ts tok f.1)

-- If a document's classified tokens are as many as its tokens, each that is found is classified.
pub find_classified :
    (id : Text) (k : ℕ) (t : Token) (ts : List Token)
    → count_where (classified_of id) ts ≡ count_where (belongs_to id) ts
    → find_token k ts ≡ some t
    → t.document_id ≡ id
    → t.status ≡ TokenStatus.classified
unfolding find_token
find_classified id k t [] e found own = cc
find_classified id k t (x ∷ xs) e found own =
    ground (arith, text_eq_iff x.document_id id, classified-le id xs, find_classified id k t xs)
