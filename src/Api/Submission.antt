-- ===== src/Api/Submission.antt =====
-- internal/api/server.go: what `POST /process` answers, and what it leaves in the tables.
use sayari.Prelude.{
  ℕ, ◌≡◌, ◌∙◌, ◌⊎◌, refl, ◌≢◌, inl, inr, false, Option, none, some, codes, Bool-cases, arith,
}
use sayari.Strings.{is_blank}
use sayari.Json.{Payload}
use sayari.Store.{Db}
use sayari.Store.Tx.{unavailable, ok, err}
use sayari.Service.{SubmitResult, submit}
use sayari.Service.Atomicity.{submit-atomic}
use sayari.Service.Decisions.{decided, submit-decided}
use sayari.Pipeline.Extraction.{Conn}
use sayari.Api.{
  Response, ProcessRequest, decode_process, rerun_mode, write_json, write_error, process_body,
  new_process_response, process_decoded, handle_process,
}

-- The decision on a request.
abbrev pub decision : ℕ → ProcessRequest → Db → SubmitResult × Db
decision now req d =
    decided (rerun_mode req) (d.documents req.document_id) now req.document_id req.text d

-- Either nothing was done, and the answer says so, or the decision was taken and is the answer.
abbrev pub Answered : ℕ → Payload → Db → Response × Db → Type 0
Answered now body d r =
    ((r.0.code ≢ 202) × (r.1 ≡ d))
    ⊎ ((req : ProcessRequest) × (decode_process body ≡ some req)
        × (is_blank req.document_id ≡ false)
        × (is_blank req.text ≡ false)
        × (r.0 ≡ write_json 202 (process_body (new_process_response (decision now req d).0)))
        × (r.1 ≡ (decision now req d).1))

submitted :
    (c : Conn) (req : ProcessRequest) (d : Db)
    → (submit c.link c.now req.document_id req.text (rerun_mode req) d ≡ (err unavailable, d))
      ⊎ (submit c.link c.now req.document_id req.text (rerun_mode req) d
          ≡ (ok (decision c.now req d).0, (decision c.now req d).1))
submitted c req d = elim (submit-atomic c.link c.now req.document_id req.text (rerun_mode req) d) [
  | inl cut ↦ inl cut
  | inr same ↦ inr (same ∙ submit-decided c.now req.document_id req.text d (rerun_mode req))
]

process_request :
    (c : Conn) (req : ProcessRequest) (d : Db)
    → is_blank req.document_id ≡ false
    → is_blank req.text ≡ false
    → (process_decoded c (some req) d ≡ (write_error 500 (codes "could not accept document"), d))
      ⊎ (process_decoded c (some req) d ≡ (
        write_json 202 (process_body (new_process_response (decision c.now req d).0)),
        (decision c.now req d).1,
      ))
unfolding process_decoded
process_request c req d hi ht = elim (submitted c req d) [
  | inl cut ↦ inl (rw (hi, ht, cut))
  | inr done ↦ inr (rw (hi, ht, done))
]

answered :
    (c : Conn) (body : Payload) (d : Db) (o : Option ProcessRequest)
    → decode_process body ≡ o
    → Answered c.now body d (process_decoded c o d)
unfolding process_decoded
answered c body d none e = inl (ground arith, refl)
answered c body d (some req) e = elim (Bool-cases (is_blank req.document_id)) [
  | inl hi ↦ rw hi (inl (ground arith, refl))
  | inr hi ↦ elim (Bool-cases (is_blank req.text)) [
    | inl ht ↦ rw (hi, ht) (inl (ground arith, refl))
    | inr ht ↦ elim (process_request c req d hi ht) [
      | inl cut ↦ rw cut (inl (ground arith, refl))
      | inr done ↦ rw done (inr (req, e, hi, ht, refl, refl))
    ]
  ]
]

-- A `POST /process` either answers an error and leaves the tables as they were, or it answers 202,
-- and then the body was a request whose document_id and text are not blank, and the answer and the
-- tables are those of the decision table of Submit: over any connection.
pub process-Answered :
    (c : Conn) (body : Payload) (d : Db) → Answered c.now body d (handle_process c body d)
unfolding handle_process
process-Answered c body d = answered c body d (decode_process body) refl
