-- ===== src/Tests/Chats.antt =====
-- internal/llm/ollama.go at a server that is busy first and then answers.
use sayari.Prelude.{
  ℕ, zero, suc, ◌≡◌, refl, [], false, Option, none, some, List, ◌∷◌, All, Text, codes, text_eq,
  length, if◌then◌else◌,
}
use sayari.Strings.{trim_space}
use sayari.Json.{names}
use sayari.Domain.{Token, Classification, RerunMode}
use sayari.Domain.Labels.{TokenStatus, category_company, category_valid}
use sayari.Llm.{answer_category}
use sayari.Llm.Retry.{Reply, do_with_retry, judge}
use sayari.Llm.Reading.{
  Json, Members, put_response, put_message, put_answer, read_response, read_answer, clamp,
}
use sayari.Llm.Ollama.{
  OllamaClassifier, HttpRequest, new_ollama_classifier, post, chat_request, truncate, classified,
  classify,
}
use sayari.Llm.Ollama.Classified.{ClassifyEnd, classify-ClassifyEnd}
use sayari.Store.Real.{to_real}
use sayari.Store.Tokens.{find_token, upsert_tokens}
use sayari.Service.{submit}
use sayari.Pipeline.Extraction.{claim, persist, enqueue_pending}
use sayari.Pipeline.Classification.{apply}
use sayari.World.{Event, start, step, run}
use sayari.World.Traced.Sound.{ShowsSound, FromModel, run_sound}
use sayari.Tests.{doc_id, body, conn, acme, submitted}
use sayari.Tests.Life.{waiting_token}
use sayari.Tests.Models.{acme_token}

abbrev hosted : OllamaClassifier
hosted = new_ollama_classifier (codes "https://ollama.com/") (codes "k") (codes "m")

sends :
    (url : Text) × ((url ≡ (post hosted (chat_request (λ s. s) hosted acme_token)).url)
      × (url ≡ codes "https://ollama.com/api/chat"))
unfolding post new_ollama_classifier
sends = (codes "https://ollama.com/api/chat", (refl, refl))

busy_first : ℕ → HttpRequest → Reply
busy_first zero r = Reply.status 503 []
busy_first (suc k) r = Reply.status 200 (codes "outer")

-- The model writes a space too many, and is more than sure.
abbrev inner : Json
inner = Json.object (
    Members.member (codes "category") (Json.string (codes "COMPANY "))
      (Members.member (codes "confidence") (Json.number 4611686018427387904) Members.end))

abbrev outer : Json
outer = Json.object (
    Members.member (codes "message")
      (Json.object (Members.member (codes "Content") (Json.string (codes "inner")) Members.end))
      Members.end)

abbrev lexer : Text → Option Json
lexer s =
    if text_eq s (codes "outer")
    then some outer
    else if text_eq s (codes "inner")
    then some inner
    else none

abbrev settled : Classification
settled = record { category = category_company; confidence = 4607182418800017408; reasoning = [] }

answers :
    classify lexer (λ s. s) (λ s. s) busy_first (λ _. false) hosted acme_token ≡ classified settled
unfolding classify new_ollama_classifier do_with_retry judge text_eq busy_first put_response
    put_message put_answer clamp answer_category category_valid trim_space read_response read_answer
    names
answers = refl

cut_off :
    length (
      truncate (
        codes
          "{\"error\":\"a message that is rather long, and is made longer, and longer still, by saying the same thing again and again: it is long, it is long, it is long, it is long, it is long, it is long, it is long\"}"))
    ≡ 203
unfolding truncate
cut_off = refl

classify-ClassifyEnd_example :
    ClassifyEnd lexer
      (λ s. s)
      (λ s. s)
      busy_first
      (λ _. false)
      hosted
      acme_token
      4
      (classify lexer (λ s. s) (λ s. s) busy_first (λ _. false) hosted acme_token)
unfolding new_ollama_classifier
classify-ClassifyEnd_example =
    classify-ClassifyEnd lexer (λ s. s) (λ s. s) busy_first (λ _. false) hosted acme_token 4 refl

abbrev hosted_life : List Event
hosted_life =
    Event.submits (conn 1) doc_id body RerunMode.partial
    ∷ Event.claims (conn 2) doc_id
    ∷ Event.persists (conn 3) submitted (acme ∷ [])
    ∷ Event.applies (conn 4) 1 1 settled
    ∷ []

abbrev settled_token : Token
settled_token = record waiting_token {
  status = TokenStatus.classified;
  classification = some settled.category;
  confidence = some settled.confidence;
  reasoning = some settled.reasoning;
  classified_at = some 4;
}

settled_found : find_token 1 (run start hosted_life).db.tokens ≡ some settled_token
unfolding run step submit claim persist apply text_eq upsert_tokens enqueue_pending find_token
    to_real
settled_found = refl

from_model : All (FromModel lexer (λ s. s) (λ s. s) hosted) hosted_life
unfolding FromModel
from_model = (tt, (tt, (tt, ((busy_first, ((λ _. false), (acme_token, answers))), tt))))

run_sound_example : ShowsSound settled_token
unfolding new_ollama_classifier
run_sound_example =
    run_sound lexer (λ s. s) (λ s. s) hosted 4 refl hosted_life 1 settled_token from_model
      settled_found refl
