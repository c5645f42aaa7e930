-- ===== src/Api/Served.antt =====
-- internal/api/server.go: which requests change the tables, and with which answer.
use sayari.Prelude.{
  ℕ, zero, suc, ◌≡◌, ◌≢◌, refl, inl, inr, ap, ◌∙◌, Bool, true, false, Bool-cases, Option-cases,
  Option, none, some, List, [], ◌∷◌, Text, codes, text_eq, text_eq→eq, arith,
}
use sayari.Domain.{Document, Token, TokenFilter}
use sayari.Store.{Db}
use sayari.Store.Tx.{Result, ok, err, not_found}
use sayari.Store.Documents.{get_document}
use sayari.Store.Query.{list_tokens}
use sayari.Pipeline.Extraction.{Conn}
use sayari.Api.{
  Response, handle_process, handle_status, handle_tokens, status_of, status_answer, tokens_of,
  tokens_after, tokens_answer, token_filter_from_query,
}
use sayari.Api.Submission.{Answered, process-Answered}
use sayari.Api.Routes.{
  Request, Route, to_process, to_health, no_route, wrong_method, to_status, to_tokens, is_get,
  allowed, route, Circumstances, health, health_answer, dispatch, serve, logging, handler,
}

get_document-same :
    (link : Option ℕ) (now : ℕ) (id : Text) (d : Db) → (get_document link now id d).1 ≡ d
unfolding get_document
get_document-same none now id d = elim (Option-cases (d.documents id)) [
  | inl missing ↦ rw missing refl
  | inr (doc, found) ↦ rw found refl
]
get_document-same (some zero) now id d = refl
get_document-same (some (suc n)) now id d = elim (Option-cases (d.documents id)) [
  | inl missing ↦ rw missing refl
  | inr (doc, found) ↦ rw found refl
]

list_tokens-same :
    (link : Option ℕ) (now : ℕ) (id : Text) (f : TokenFilter) (d : Db)
    → (list_tokens link now id f d).1 ≡ d
unfolding list_tokens
list_tokens-same none now id f d = refl
list_tokens-same (some zero) now id f d = refl
list_tokens-same (some (suc n)) now id f d = refl

-- No lookup answers 202.
status_answer-code : (r : Result Document) → (status_answer r).code ≢ 202
unfolding status_answer
status_answer-code (ok doc) = λ e. absurd (omega (arith, e))
status_answer-code (err not_found) = λ e. absurd (omega (arith, e))
status_answer-code (err e) = λ h. absurd (omega (arith, h))

tokens_answer-code : (id : Text) (r : Result (List Token)) → (tokens_answer id r).code ≢ 202
unfolding tokens_answer
tokens_answer-code id (ok ts) = λ e. absurd (omega (arith, e))
tokens_answer-code id (err not_found) = λ e. absurd (omega (arith, e))
tokens_answer-code id (err e) = λ h. absurd (omega (arith, h))

tokens_after-same :
    (c : Conn) (id : Text) (f : TokenFilter) (r : Result Document × Db)
    → (tokens_after c id f r).1 ≡ r.1
unfolding tokens_after
tokens_after-same c id f (err e, d) = refl
tokens_after-same c id f (ok doc, d) = list_tokens-same c.link c.now id f d

health_answer-code : (o : Option Text) → (health_answer o).code ≢ 202
unfolding health_answer
health_answer-code none = λ e. absurd (omega (arith, e))
health_answer-code (some x) = λ e. absurd (omega (arith, e))

module _ (env : Circumstances) (req : Request) (d : Db) where
  -- A submission that was accepted, or another answer with the tables as they were or as the others
  -- left them.
  pub data Served (r : Response × Db) : Type 0 where
    submission :
        req.method ≡ codes "POST"
        → req.path ≡ codes "process" ∷ []
        → r.0.code ≡ 202
        → Answered env.first.now req.body d r
        → Served r
    untouched : r.0.code ≢ 202 → r.1 ≡ d → Served r
    looked_up :
        (id : Text)
        → route req.method req.path ≡ to_tokens id
        → r.0.code ≢ 202
        → r.1 ≡ env.others d
        → Served r

  process-Served :
      (r : Response × Db)
      → Answered env.first.now req.body d r
      → req.method ≡ codes "POST"
      → req.path ≡ codes "process" ∷ []
      → Served r
  process-Served r (inl (code, same)) method path = untouched code same
  process-Served r (inr (q, e, hi, ht, answer, tables)) method path =
      submission method path (ap (λ x. x.code) answer) (inr (q, e, hi, ht, answer, tables))

  tokens-same :
      (id : Text)
      → (handle_tokens env.to_upper env.others env.first env.second id req.query d).1 ≡ env.others d
  unfolding handle_tokens tokens_of
  tokens-same id =
      let found = get_document env.first.link env.first.now id d in
      tokens_after-same env.second id (token_filter_from_query env.to_upper req.query)
        (found.0, env.others found.1)
      ∙ ap env.others (get_document-same env.first.link env.first.now id d)

  dispatch-Served :
      (to : Route)
      → route req.method req.path ≡ to
      → (to ≡ to_process → (req.method ≡ codes "POST") × (req.path ≡ codes "process" ∷ []))
      → Served (dispatch env to req d)
  unfolding dispatch handle_status handle_tokens status_of
  dispatch-Served to_process same h =
      process-Served (handle_process env.first req.body d) (process-Answered env.first req.body d)
        (h refl).0 (h refl).1
  dispatch-Served (to_status id) same h =
      untouched (status_answer-code (get_document env.first.link env.first.now id d).0)
        (get_document-same env.first.link env.first.now id d)
  dispatch-Served (to_tokens id) same h =
      looked_up id same (tokens_answer-code id _) (tokens-same id)
  dispatch-Served to_health same h =
      untouched (health_answer-code (health env.postgres env.broker)) refl
  dispatch-Served no_route same h = untouched (λ e. absurd (omega (arith, e))) refl
  dispatch-Served wrong_method same h = untouched (λ e. absurd (omega (arith, e))) refl

allowed-process :
    (ok : Bool) (r : Route) → allowed ok r ≡ to_process → (ok ≡ true) × (r ≡ to_process)
unfolding allowed
allowed-process true r e = (refl, e)
allowed-process false r e = cc

-- Only `POST /process` goes to the submission.
route-process :
    (method : Text) (path : List Text)
    → route method path ≡ to_process
    → (method ≡ codes "POST") × (path ≡ codes "process" ∷ [])
unfolding route
route-process method [] e = cc
route-process method (name ∷ []) e = elim (Bool-cases (text_eq name (codes "process"))) [
  | inl process ↦
      let ok = allowed-process (text_eq method (codes "POST")) to_process (rw process at e) in
      (text_eq→eq method (codes "POST") ok.0, rw (text_eq→eq name (codes "process") process) refl)
  | inr other ↦ elim (Bool-cases (text_eq name (codes "healthz"))) [
    | inl health_check ↦ absurd (
        ground
          (arith, (allowed-process (is_get method) to_health (rw (other, health_check) at e)).1))
    | inr unknown ↦ absurd (ground (arith, rw (other, unknown) at e))
  ]
]
route-process method (name ∷ id ∷ []) e = cc
route-process method (name ∷ id ∷ what ∷ []) e =
    elim (Bool-cases (text_eq name (codes "documents"))) [
      | inr other ↦ absurd (ground (arith, rw other at e))
      | inl documents ↦ elim (Bool-cases (text_eq what (codes "status"))) [
        | inl status ↦ absurd (
            ground (
              arith,
              (allowed-process (is_get method) (to_status id) (rw (documents, status) at e)).1,
            ))
        | inr other ↦ elim (Bool-cases (text_eq what (codes "tokens"))) [
          | inl tokens ↦ absurd (
              ground (
                arith,
                (allowed-process (is_get method) (to_tokens id)
                    (rw (documents, other, tokens) at e)).1,
              ))
          | inr unknown ↦ absurd (ground (arith, rw (documents, other, unknown) at e))
        ]
      ]
    ]
route-process method (name ∷ id ∷ what ∷ more ∷ path) e = cc

-- Any request, to any path and with any method, ends in one of three ways, and the access log has
-- its code. It is a `POST /process` that is answered with 202, and the tables and the answer are
-- those of the decision table of Submit. Or it is answered with another code, and the tables are as
-- they were. Or its route is that of a document's tokens, with another code than 202, and the tables are as the others left
-- them between the lookup's two statements.
pub handler-Served :
    (env : Circumstances) (req : Request) (d : Db)
    → Served env req d (handler env req d).0
      × ((handler env req d).1.status ≡ (handler env req d).0.0.code)
unfolding handler serve logging
handler-Served env req d = (
  dispatch-Served env req d (route req.method req.path) refl (route-process req.method req.path),
  refl,
)
