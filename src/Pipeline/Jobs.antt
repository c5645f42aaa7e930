-- ===== src/Pipeline/Jobs.antt =====
-- internal/pipeline/jobs.go: the jobs, their JSON, and how they are enqueued.
use sayari.Prelude.{
  ℕ, zero, suc, ◌+◌, ◌/◌, ◌%◌, ◌≡◌, refl, Option, none, some, [], ◌∷◌, Text, codes, text_eq, ltb,
  if◌then◌else◌,
}
use sayari.Json.{Value, Payload, object, names, set_text, set_int, decode_into}
use sayari.Queue.{stream_extract, stream_classify}
use sayari.Store.Tx.{Tx}
use sayari.Store.Outbox.{enqueue_outbox}

pub record ExtractJob : Type 0 where
  pub document_id : Text
  pub run_version : ℕ

pub record ClassifyJob : Type 0 where
  pub token_id : ℕ
  pub document_id : Text
  pub run_version : ℕ

-- `json.Marshal` of an `ExtractJob`, by its field tags.
unfoldable pub encode_extract : ExtractJob → Payload
encode_extract job = object (
    (codes "document_id", Value.str job.document_id)
    ∷ (codes "run_version", Value.num job.run_version)
    ∷ [])

-- `json.Marshal` of a `ClassifyJob`.
unfoldable pub encode_classify : ClassifyJob → Payload
encode_classify job = object (
    (codes "token_id", Value.num job.token_id)
    ∷ (codes "document_id", Value.str job.document_id)
    ∷ (codes "run_version", Value.num job.run_version)
    ∷ [])

extract_job : Option Text → Option ℕ → Option ExtractJob
extract_job none run_version = none
extract_job (some id) none = none
extract_job (some id) (some v) = some (record { document_id = id; run_version = v })

classify_job : Option ℕ → Option Text → Option ℕ → Option ClassifyJob
classify_job none id v = none
classify_job (some t) none v = none
classify_job (some t) (some id) none = none
classify_job (some t) (some id) (some v) =
    some (record { token_id = t; document_id = id; run_version = v })

-- One member of the object into the struct; unknown members are ignored.
put_extract : ExtractJob → Text → Value → Option ExtractJob
unfolding names set_text set_int extract_job
put_extract job name v =
    if names (codes "document_id") name
    then extract_job (set_text job.document_id v) (some job.run_version)
    else if names (codes "run_version") name
    then extract_job (some job.document_id) (set_int job.run_version v)
    else some job

put_classify : ClassifyJob → Text → Value → Option ClassifyJob
unfolding names set_text set_int classify_job
put_classify job name v =
    if names (codes "token_id") name
    then classify_job (set_int job.token_id v) (some job.document_id) (some job.run_version)
    else if names (codes "document_id") name
    then classify_job (some job.token_id) (set_text job.document_id v) (some job.run_version)
    else if names (codes "run_version") name
    then classify_job (some job.token_id) (some job.document_id) (set_int job.run_version v)
    else some job

-- `decode[ExtractJob]` and `decode[ClassifyJob]`: `none` is an error.
unfoldable pub decode_extract : Payload → Option ExtractJob
unfolding decode_into put_extract
decode_extract = decode_into put_extract (record { document_id = []; run_version = 0 })

unfoldable pub decode_classify : Payload → Option ClassifyJob
unfolding decode_into put_classify
decode_classify =
    decode_into put_classify (record { token_id = 0; document_id = []; run_version = 0 })

-- `strconv.FormatInt(n, 10)` for n ≥ 0, on fuel: a number has fewer digits than it has units.
unfoldable pub format_digits : ℕ → ℕ → Text → Text
format_digits zero n rest = rest
format_digits (suc fuel) n rest =
    let more = format_digits fuel (n / 10) ((b'0' + n % 10) ∷ rest) in
    if ltb n 10 then (b'0' + n) ∷ rest else more

unfoldable pub format_int : ℕ → Text
unfolding format_digits
format_int n = format_digits (suc n) n []

-- `EnqueueExtract`.
unfoldable pub enqueue_extract : ExtractJob → Tx (Unit {0})
unfolding enqueue_outbox
enqueue_extract job = enqueue_outbox stream_extract job.document_id (encode_extract job)

-- `EnqueueClassify`.
unfoldable pub enqueue_classify : ClassifyJob → Tx (Unit {0})
unfolding enqueue_outbox
enqueue_classify job =
    enqueue_outbox stream_classify (format_int job.token_id) (encode_classify job)

-- An extract job that is encoded by its field tags decodes into the same job.
pub decode_extract-encode_extract :
    (job : ExtractJob) → decode_extract (encode_extract job) ≡ some job
unfolding decode_extract encode_extract text_eq
decode_extract-encode_extract job = refl

-- A classify job that is encoded by its field tags decodes into the same job.
pub decode_classify-encode_classify :
    (job : ClassifyJob) → decode_classify (encode_classify job) ≡ some job
unfolding decode_classify encode_classify text_eq
decode_classify-encode_classify job = refl
