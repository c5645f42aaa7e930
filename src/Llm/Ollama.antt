-- ===== src/Llm/Ollama.antt =====
-- internal/llm/ollama.go: the requests of the classifier, and `Classify`. The server, the lexer of
-- JSON, the `%q` of fmt and Unicode's upper case are parameters.
pub mod Classified
use sayari.Prelude.{
  ℕ, ◌==◌, ◌&&◌, Bool, true, false, Option, none, some, List, [], ◌∷◌, ◌++◌, Text, codes, ltb,
  length, take, if◌then◌else◌, ℤ, pos,
}
use sayari.Domain.{Token, Classification, Float}
use sayari.Llm.{answer_category}
use sayari.Llm.Retry.{Reply, Outcome, answer, do_with_retry}
use sayari.Llm.Reading.{Json, ChatMessage, ModelAnswer, read_response, read_answer, clamp}

-- The client and the log are left out.
pub record OllamaClassifier : Type 0 where
  pub base_url : Text
  pub api_key : Text
  pub model : Text
  pub max_retries : ℤ

only_slashes : Text → Bool
only_slashes [] = true
only_slashes (c ∷ s) = let rest = only_slashes s in c == b'/' && rest

-- `strings.TrimRight(s, "/")`.
unfoldable pub trim_slashes : Text → Text
unfolding only_slashes
trim_slashes [] = []
trim_slashes (c ∷ s) = let rest = trim_slashes s in if only_slashes (c ∷ s) then [] else c ∷ rest

-- `NewOllamaClassifier` without options.
unfoldable pub new_ollama_classifier : Text → Text → Text → OllamaClassifier
unfolding trim_slashes
new_ollama_classifier base_url api_key model = record {
  base_url = trim_slashes base_url;
  api_key = api_key;
  model = model;
  max_retries = pos 4;
}

-- `WithMaxRetries`.
unfoldable pub with_max_retries : ℤ → OllamaClassifier → OllamaClassifier
with_max_retries n o = record o { max_retries = n }

-- The schema and the options are the same in every request; the options are the temperature and
-- the bound of the answer.
pub record ChatRequest : Type 0 where
  pub model : Text
  pub messages : List ChatMessage
  pub stream : Bool
  pub format : Text
  pub temperature : ℕ
  pub num_predict : ℕ

abbrev pub response_schema : Text
response_schema =
    codes "{\n"
    ++ codes "  \"type\": \"object\",\n"
    ++ codes "  \"properties\": {\n"
    ++ codes
        "    \"category\": {\"type\": \"string\", \"enum\": [\"COMPANY\",\"PERSON\",\"ADDRESS\",\"DATE\",\"UNKNOWN\"]},\n"
    ++ codes "    \"confidence\": {\"type\": \"number\"},\n"
    ++ codes "    \"reasoning\": {\"type\": \"string\"}\n"
    ++ codes "  },\n"
    ++ codes "  \"required\": [\"category\",\"confidence\",\"reasoning\"]\n"
    ++ codes "}"

abbrev pub system_prompt : Text
system_prompt =
    codes "You are an entity classifier in a document-processing pipeline.\n"
    ++ codes "Classify the given token into exactly one category:\n"
    ++ codes "- COMPANY: a business, organization, or institution\n"
    ++ codes "- PERSON: an individual's name\n"
    ++ codes "- ADDRESS: a street address or physical location\n"
    ++ codes "- DATE: a date or time expression\n"
    ++ codes "- UNKNOWN: none of the above, or insufficient signal\n"
    ++ codes "Respond ONLY with the requested JSON. Confidence is a number between 0 and 1."

unfoldable pub or_none : Text → Text
or_none [] = codes "(none)"
or_none (c ∷ s) = c ∷ s

-- An HTTP POST: the header Authorization is set where there is a key. The body is the JSON of the
-- request.
pub record HttpRequest : Type 0 where
  pub url : Text
  pub content_type : Text
  pub authorization : Option Text
  pub body : ChatRequest

unfoldable pub bearer : Text → Option Text
bearer [] = none
bearer (c ∷ s) = some (codes "Bearer " ++ c ∷ s)

-- The request that `do` makes.
unfoldable pub post : OllamaClassifier → ChatRequest → HttpRequest
unfolding bearer
post o body = record {
  url = o.base_url ++ codes "/api/chat";
  content_type = codes "application/json";
  authorization = bearer o.api_key;
  body = body;
}

-- `truncate`: at most 200 bytes, and an ellipsis in UTF-8 where some are cut.
unfoldable pub truncate : Text → Text
truncate b = if ltb 200 (length b) then take 200 b ++ 226 ∷ 128 ∷ 166 ∷ [] else b

pub data Result : Type 0 where
  classified : Classification → Result
  call_failed : Outcome → Result
  undecodable_response : Result
  undecodable_answer : Text → Result

module _ (quote : Text → Text) where
  unfoldable pub user_prompt : Token → Text
  unfolding or_none
  user_prompt tok =
      codes "Token: "
      ++ quote tok.text
      ++ codes "\nContext (the sentence it appears in): "
      ++ quote (or_none tok.context)
      ++ codes "\nClassify this token."

  unfoldable pub chat_request : OllamaClassifier → Token → ChatRequest
  unfolding user_prompt
  chat_request o tok = record {
    model = o.model;
    messages =
        record { role = codes "system"; content = system_prompt }
        ∷ record { role = codes "user"; content = user_prompt tok }
        ∷ [];
    stream = false;
    format = response_schema;
    temperature = 0;
    num_predict = 200;
  }

module _ (lex : Text → Option Json) (to_upper : Text → Text) where
  unfoldable pub after_answer : Text → Option ModelAnswer → Result
  after_answer content none = undecodable_answer content
  after_answer content (some parsed) = classified (record {
    category = answer_category to_upper parsed.category;
    confidence = clamp parsed.confidence;
    reasoning = parsed.reasoning;
  })

  unfoldable pub after_response : Option ChatMessage → Result
  unfolding after_answer
  after_response none = undecodable_response
  after_response (some m) = after_answer m.content (read_answer (lex m.content))

  unfoldable pub after_call : Outcome → Result
  unfolding after_response
  after_call (answer raw) = after_response (read_response (lex raw))
  after_call o = call_failed o

  -- `Classify`: what the server replies to attempt `k` of a request, or that it does not.
  unfoldable pub classify :
      (Text → Text) → (ℕ → HttpRequest → Reply) → (ℕ → Bool) → OllamaClassifier → Token → Result
  unfolding after_call post chat_request
  classify quote server done o tok =
      after_call
        (do_with_retry (λ k. server k (post o (chat_request quote o tok))) done o.max_retries).0
