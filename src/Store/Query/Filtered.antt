-- ===== src/Store/Query/Filtered.antt =====
-- internal/store/tokens.go: the placeholders of `ListTokens`, and the rows that its query selects.
use sayari.Prelude.{
  zero, suc, ◌≡◌, refl, ℤ, pos, negsuc, Bool, Option, none, some, List, [], ◌∷◌, ◌++◌, Text, select,
  append_assoc, length, sym, ◌∙◌, append-nil, arith,
}
use sayari.Domain.{Document, Token, TokenFilter}
use sayari.Store.{Db}
use sayari.Store.Query.{
  Query, Arg, arg_at, add_limit, add_offset, filter_query, build_query, holds_all, limit_rows,
  offset_rows, placeholder, run_query, wanted, at_most, from,
}

select_ext :
    (p q : Token → Bool) (ts : List Token) → ((t : Token) → p t ≡ q t) → select p ts ≡ select q ts
select_ext p q [] h = refl
select_ext p q (t ∷ ts) h = rw (h t, select_ext p q ts h)

abbrev filter_of : Option Text → Option Text → Option ℤ → ℤ → ℤ → TokenFilter
filter_of c s p l o = record { classification = c; status = s; page = p; limit = l; offset = o }

-- One list of placeholders and clauses for each set of fields that is set.
holds-wanted :
    (docs : Text → Option Document) (doc_id : Text) (c s : Option Text) (p : Option ℤ) (l o : ℤ)
    (t : Token) (extra : List Arg)
    → holds_all docs
        ((filter_query doc_id (filter_of c s p l o)).args ++ extra)
        t
        (filter_query doc_id (filter_of c s p l o)).where_clauses
      ≡ wanted docs doc_id (filter_of c s p l o) t
unfolding filter_query holds_all wanted
holds-wanted docs doc_id none none none l o t extra = ground arith
holds-wanted docs doc_id (some c) none none l o t extra = ground arith
holds-wanted docs doc_id none (some s) none l o t extra = ground arith
holds-wanted docs doc_id (some c) (some s) none l o t extra = ground arith
holds-wanted docs doc_id none none (some p) l o t extra = ground arith
holds-wanted docs doc_id (some c) none (some p) l o t extra = ground arith
holds-wanted docs doc_id none (some s) (some p) l o t extra = ground arith
holds-wanted docs doc_id (some c) (some s) (some p) l o t extra = ground arith

arg_at-length :
    (xs : List Arg) (a : Arg) (ys : List Arg) → arg_at (xs ++ a ∷ ys) (suc (length xs)) ≡ some a
unfolding arg_at
arg_at-length [] a ys = refl
arg_at-length (x ∷ xs) a ys = arg_at-length xs a ys

length-snoc : (xs : List Arg) (a : Arg) → length (xs ++ a ∷ []) ≡ suc (length xs)
length-snoc [] a = refl
length-snoc (x ∷ xs) a = rw (length-snoc xs a)

-- The number that `LIMIT $n` is given stays the argument's number whatever is appended later.
arg_at_last :
    (xs : List Arg) (a : Arg) (ys : List Arg)
    → arg_at ((xs ++ a ∷ []) ++ ys) (length (xs ++ a ∷ [])) ≡ some a
arg_at_last xs a ys = rw (length-snoc xs a, append_assoc xs (a ∷ []) ys, arg_at-length xs a ys)

-- The argument that LIMIT or OFFSET is given, if any.
abbrev given : ℤ → Option Arg
given (pos zero) = none
given (pos (suc n)) = some (Arg.int (pos (suc n)))
given (negsuc n) = none

limit_rows-given : (l : ℤ) (ts : List Token) → limit_rows (given l) ts ≡ at_most l ts
unfolding limit_rows
limit_rows-given (pos zero) ts = refl
limit_rows-given (pos (suc n)) ts = refl
limit_rows-given (negsuc n) ts = refl

offset_rows-given : (o : ℤ) (ts : List Token) → offset_rows (given o) ts ≡ from o ts
unfolding offset_rows
offset_rows-given (pos zero) ts = refl
offset_rows-given (pos (suc n)) ts = refl
offset_rows-given (negsuc n) ts = refl

-- LIMIT and OFFSET only append arguments.
Appends : Query → Query → Type 0
Appends q r = (extra : List Arg) × (r.args ≡ q.args ++ extra) × (r.where_clauses ≡ q.where_clauses)

add_limit-Appends : (l : ℤ) (q : Query) → Appends q (add_limit l q)
unfolding Appends add_limit
add_limit-Appends (pos zero) q = ([], sym (append-nil q.args), refl)
add_limit-Appends (pos (suc n)) q = (Arg.int (pos (suc n)) ∷ [], refl, refl)
add_limit-Appends (negsuc n) q = ([], sym (append-nil q.args), refl)

add_offset-Appends : (o : ℤ) (q : Query) → Appends q (add_offset o q)
unfolding Appends add_offset
add_offset-Appends (pos zero) q = ([], sym (append-nil q.args), refl)
add_offset-Appends (pos (suc n)) q = (Arg.int (pos (suc n)) ∷ [], refl, refl)
add_offset-Appends (negsuc n) q = ([], sym (append-nil q.args), refl)

Appends-trans : (q r s : Query) → Appends q r → Appends r s → Appends q s
unfolding Appends
Appends-trans q r s (e, ha, hw) (e', ha', hw') =
    (e ++ e', ha' ∙ rw (ha, append_assoc q.args e e'), hw' ∙ hw)

add_limit-placeholder :
    (l : ℤ) (q : Query) (extra : List Arg)
    → q.limit ≡ none
    → placeholder ((add_limit l q).args ++ extra) (add_limit l q).limit ≡ given l
unfolding add_limit placeholder
add_limit-placeholder (pos zero) q extra h = rw h
add_limit-placeholder (pos (suc n)) q extra h = arg_at_last q.args _ extra
add_limit-placeholder (negsuc n) q extra h = rw h

add_offset-placeholder :
    (o : ℤ) (q : Query)
    → q.offset ≡ none
    → placeholder (add_offset o q).args (add_offset o q).offset ≡ given o
unfolding add_offset placeholder
add_offset-placeholder (pos zero) q h = rw h
add_offset-placeholder (pos (suc n)) q h =
    rw (length-snoc q.args (Arg.int (pos (suc n))), arg_at-length q.args (Arg.int (pos (suc n))) [])
add_offset-placeholder (negsuc n) q h = rw h

add_offset-limit : (o : ℤ) (q : Query) → (add_offset o q).limit ≡ q.limit
unfolding add_offset
add_offset-limit (pos zero) q = refl
add_offset-limit (pos (suc n)) q = refl
add_offset-limit (negsuc n) q = refl

add_limit-offset : (l : ℤ) (q : Query) → (add_limit l q).offset ≡ q.offset
unfolding add_limit
add_limit-offset (pos zero) q = refl
add_limit-offset (pos (suc n)) q = refl
add_limit-offset (negsuc n) q = refl

unpaged :
    (doc_id : Text) (c s : Option Text) (p : Option ℤ) (l o : ℤ)
    → ((filter_query doc_id (filter_of c s p l o)).limit ≡ none)
      × ((filter_query doc_id (filter_of c s p l o)).offset ≡ none)
unfolding filter_query
unpaged doc_id none none none l o = (refl, refl)
unpaged doc_id (some c) none none l o = (refl, refl)
unpaged doc_id none (some s) none l o = (refl, refl)
unpaged doc_id (some c) (some s) none l o = (refl, refl)
unpaged doc_id none none (some p) l o = (refl, refl)
unpaged doc_id (some c) none (some p) l o = (refl, refl)
unpaged doc_id none (some s) (some p) l o = (refl, refl)
unpaged doc_id (some c) (some s) (some p) l o = (refl, refl)

build_query-limit :
    (doc_id : Text) (f : TokenFilter)
    → placeholder (build_query doc_id f).args (build_query doc_id f).limit ≡ given f.limit
unfolding build_query Appends
build_query-limit doc_id f =
    let b = filter_query doc_id f in
    let (extra, ha, hw) = add_offset-Appends f.offset (add_limit f.limit b) in
    rw (
      ha,
      add_offset-limit f.offset (add_limit f.limit b),
      add_limit-placeholder f.limit b extra
          (unpaged doc_id f.classification f.status f.page f.limit f.offset).0,
    )

build_query-offset :
    (doc_id : Text) (f : TokenFilter)
    → placeholder (build_query doc_id f).args (build_query doc_id f).offset ≡ given f.offset
unfolding build_query
build_query-offset doc_id f =
    let b = filter_query doc_id f in
    add_offset-placeholder f.offset (add_limit f.limit b) (
      add_limit-offset f.limit b
      ∙ (unpaged doc_id f.classification f.status f.page f.limit f.offset).1)

build_query-holds :
    (docs : Text → Option Document) (doc_id : Text) (f : TokenFilter) (t : Token)
    → holds_all docs (build_query doc_id f).args t (build_query doc_id f).where_clauses
      ≡ wanted docs doc_id f t
unfolding build_query Appends
build_query-holds docs doc_id f t =
    let b = filter_query doc_id f in
    let (extra, ha, hw) =
      Appends-trans b (add_limit f.limit b) (add_offset f.offset (add_limit f.limit b))
        (add_limit-Appends f.limit b) (add_offset-Appends f.offset (add_limit f.limit b)) in
    rw (ha, hw, holds-wanted docs doc_id f.classification f.status f.page f.limit f.offset t extra)

-- The rows that the query of a filter answers are the document's tokens of its current run that match every
-- field that is set, from the offset on and at most the limit, where these are positive.
pub run_query-build_query :
    (d : Db) (doc_id : Text) (f : TokenFilter)
    → run_query (build_query doc_id f) d
      ≡ at_most f.limit (from f.offset (select (wanted d.documents doc_id f) d.tokens))
unfolding run_query
run_query-build_query d doc_id f = rw (
  build_query-limit doc_id f,
  build_query-offset doc_id f,
  select_ext
      (λ t.
        holds_all d.documents (build_query doc_id f).args t (build_query doc_id f).where_clauses)
      (wanted d.documents doc_id f) d.tokens (build_query-holds d.documents doc_id f),
  offset_rows-given f.offset (select (wanted d.documents doc_id f) d.tokens),
  limit_rows-given f.limit (from f.offset (select (wanted d.documents doc_id f) d.tokens)),
)
