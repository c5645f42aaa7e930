-- ===== src/Store/Query.antt =====
-- internal/store/tokens.go: `ListTokens` builds its SQL text clause by clause, with numbered
-- placeholders. A query here is that text after parsing: the clauses with their placeholder numbers,
-- and the arguments.
pub mod Filtered
use sayari.Prelude.{
  ℕ, zero, suc, ◌+◌, ◌≡◌, refl, ℤ, pos, negsuc, is_positive, Bool, true, false, ◌&&◌, ◌==◌, Option,
  none, some, List, [], ◌∷◌, ◌++◌, Text, text_eq, length, take, drop, select, if◌then◌else◌, arith,
}
use sayari.Domain.{Document, Token, TokenFilter}
use sayari.Domain.Labels.{token_status_text}
use sayari.Store.{Db}
use sayari.Store.Tx.{Result, ok}
use sayari.Store.Documents.{autocommit}

pub data Arg : Type 0 where
  text : Text → Arg
  int : ℤ → Arg

-- A clause of the WHERE list, with the number of its placeholder.
pub data Clause : Type 0 where
  document_id_is run_version_is_current classification_is status_is page_is : ℕ → Clause

pub record Query : Type 0 where
  pub args : List Arg
  pub where_clauses : List Clause
  pub limit : Option ℕ
  pub offset : Option ℕ

-- `args := []any{docID}` and the two fixed clauses.
base_query : Text → Query
base_query doc_id = record {
  args = Arg.text doc_id ∷ [];
  where_clauses = document_id_is 1 ∷ run_version_is_current 1 ∷ [];
  limit = none;
  offset = none;
}

-- The closure `add`: the placeholder is the number of arguments after the append.
add : (ℕ → Clause) → Arg → Query → Query
add clause val q = record q {
  args = q.args ++ val ∷ [];
  where_clauses = q.where_clauses ++ clause (length (q.args ++ val ∷ [])) ∷ [];
}

add_if {κ} : {A : Type κ} → (ℕ → Clause) → (A → Arg) → Option A → Query → Query
unfolding add
add_if clause arg none q = q
add_if clause arg (some v) q = add clause (arg v) q

unfoldable pub add_limit : ℤ → Query → Query
add_limit n q =
    if is_positive n
    then record q {
      args = q.args ++ Arg.int n ∷ [];
      limit = some (length (q.args ++ Arg.int n ∷ []));
    }
    else q

unfoldable pub add_offset : ℤ → Query → Query
add_offset n q =
    if is_positive n
    then record q {
      args = q.args ++ Arg.int n ∷ [];
      offset = some (length (q.args ++ Arg.int n ∷ []));
    }
    else q

-- The WHERE list, before LIMIT and OFFSET.
unfoldable pub filter_query : Text → TokenFilter → Query
unfolding base_query add_if
filter_query doc_id f = add_if page_is Arg.int f.page (
    add_if status_is Arg.text f.status
      (add_if classification_is Arg.text f.classification (base_query doc_id)))

unfoldable pub build_query : Text → TokenFilter → Query
unfolding filter_query add_limit add_offset
build_query doc_id f = add_offset f.offset (add_limit f.limit (filter_query doc_id f))

-- The argument of placeholder `$n`; they are numbered from 1.
unfoldable pub arg_at : List Arg → ℕ → Option Arg
arg_at [] n = none
arg_at (a ∷ as') zero = none
arg_at (a ∷ as') (suc zero) = some a
arg_at (a ∷ as') (suc (suc n)) = arg_at as' (suc n)

int_eq : ℕ → ℤ → Bool
int_eq n (pos m) = n == m
int_eq n (negsuc m) = false

-- A comparison with NULL holds for no row.
text_is : Option Text → Option Arg → Bool
text_is (some s) (some (Arg.text v)) = text_eq s v
text_is (some s) (some (Arg.int v)) = false
text_is (some s) none = false
text_is none a = false

int_is : Option ℕ → Option Arg → Bool
unfolding int_eq
int_is (some n) (some (Arg.int v)) = int_eq n v
int_is (some n) (some (Arg.text v)) = false
int_is (some n) none = false
int_is none a = false

run_is : Option Document → ℕ → Bool
run_is none n = false
run_is (some doc) n = n == doc.run_version

-- `(SELECT run_version FROM documents WHERE id = $n)`, compared with the row's.
current_run : (Text → Option Document) → ℕ → Option Arg → Bool
unfolding run_is
current_run docs n (some (Arg.text id)) = run_is (docs id) n
current_run docs n (some (Arg.int v)) = false
current_run docs n none = false

holds : (Text → Option Document) → List Arg → Token → Clause → Bool
unfolding text_is int_is current_run arg_at
holds docs args t (document_id_is n) = text_is (some t.document_id) (arg_at args n)
holds docs args t (run_version_is_current n) = current_run docs t.run_version (arg_at args n)
holds docs args t (classification_is n) = text_is t.classification (arg_at args n)
holds docs args t (status_is n) = text_is (some (token_status_text t.status)) (arg_at args n)
holds docs args t (page_is n) = int_is (some t.position.page) (arg_at args n)

unfoldable pub holds_all : (Text → Option Document) → List Arg → Token → List Clause → Bool
unfolding holds
holds_all docs args t [] = true
holds_all docs args t (c ∷ cs) = holds docs args t c && holds_all docs args t cs

-- LIMIT and OFFSET, where they are given.
unfoldable pub limit_rows : Option Arg → List Token → List Token
limit_rows (some (Arg.int (pos n))) ts = take n ts
limit_rows _ ts = ts

unfoldable pub offset_rows : Option Arg → List Token → List Token
offset_rows (some (Arg.int (pos n))) ts = drop n ts
offset_rows _ ts = ts

unfoldable pub placeholder : List Arg → Option ℕ → Option Arg
unfolding arg_at
placeholder args none = none
placeholder args (some n) = arg_at args n

-- What the database answers: the rows in the order of their ids.
unfoldable pub run_query : Query → Db → List Token
unfolding holds_all limit_rows offset_rows placeholder
run_query q d = limit_rows (placeholder q.args q.limit) (
    offset_rows (placeholder q.args q.offset)
      (select (λ t. holds_all d.documents q.args t q.where_clauses) d.tokens))

-- `Store.ListTokens`.
unfoldable pub list_tokens : Option ℕ → ℕ → Text → TokenFilter → Db → Result (List Token) × Db
unfolding build_query run_query
list_tokens link now doc_id f =
    autocommit link now (λ now d. ok (run_query (build_query doc_id f) d, d))

-- The filter as its documentation has it: the document, its current run, and each field that is set.
matches_option {κ} : {A : Type κ} → (A → Bool) → Option A → Bool
matches_option p none = true
matches_option p (some a) = p a

unfoldable pub wanted : (Text → Option Document) → Text → TokenFilter → Token → Bool
unfolding matches_option run_is int_eq text_is
wanted docs doc_id f t =
    text_eq t.document_id doc_id
    && (run_is (docs doc_id) t.run_version
        && (matches_option (λ c. text_is t.classification (some (Arg.text c))) f.classification
            && (matches_option (λ s. text_eq (token_status_text t.status) s) f.status
                && matches_option (λ p. int_eq t.position.page p) f.page)))

abbrev pub at_most : ℤ → List Token → List Token
at_most (pos zero) ts = ts
at_most (pos (suc n)) ts = take (suc n) ts
at_most (negsuc n) ts = ts

abbrev pub from : ℤ → List Token → List Token
from (pos n) ts = drop n ts
from (negsuc n) ts = ts
