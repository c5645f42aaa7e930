-- ===== src/Api/Routes.antt =====
-- internal/api/server.go, internal/api/helpers.go, internal/service/document.go: the routes, the
-- health check and the access log. A path is the list of its segments as net/http has cleaned and
-- unescaped them; a GET pattern of net/http also takes HEAD.
use sayari.Prelude.{
  ℕ, Bool, ◌||◌, Option, none, some, List, [], ◌∷◌, ◌++◌, Text, codes, text_eq, if◌then◌else◌,
}
use sayari.Json.{Payload}
use sayari.Store.{Db}
use sayari.Pipeline.Extraction.{Conn}
use sayari.Api.{
  Response, health_body, plain_text, write_json, write_error, handle_process, handle_status,
  handle_tokens, QueryString,
}

pub record Request : Type 0 where
  pub method : Text
  pub path : List Text
  pub query : QueryString
  pub body : Payload

pub data Route : Type 0 where
  to_process to_health no_route wrong_method : Route
  to_status to_tokens : Text → Route

unfoldable pub is_get : Text → Bool
is_get method = text_eq method (codes "GET") || text_eq method (codes "HEAD")

unfoldable pub allowed : Bool → Route → Route
allowed ok r = if ok then r else wrong_method

-- The patterns of `Handler`.
unfoldable pub route : Text → List Text → Route
unfolding is_get allowed
route method [] = no_route
route method (name ∷ []) =
    if text_eq name (codes "process")
    then allowed (text_eq method (codes "POST")) to_process
    else if text_eq name (codes "healthz")
    then allowed (is_get method) to_health
    else no_route
route method (name ∷ id ∷ []) = no_route
route method (name ∷ id ∷ what ∷ []) =
    if text_eq name (codes "documents")
    then (if text_eq what (codes "status")
        then allowed (is_get method) (to_status id)
        else if text_eq what (codes "tokens")
        then allowed (is_get method) (to_tokens id)
        else no_route)
    else no_route
route method (name ∷ id ∷ what ∷ more ∷ path) = no_route

-- `DocumentService.Health`, by the errors of the two pings.
unfoldable pub health : Option Text → Option Text → Option Text
health (some e) broker = some (codes "postgres: " ++ e)
health none (some e) = some (codes "broker: " ++ e)
health none none = none

unfoldable pub health_answer : Option Text → Response
health_answer (some e) = write_error 503 e
health_answer none = write_json 200 (health_body (codes "ok"))

-- What a request meets: two connections, what others do to the tables between two statements, the
-- errors of the pings, and Unicode's upper case.
pub record Circumstances : Type 0 where
  pub to_upper : Text → Text
  pub first : Conn
  pub second : Conn
  pub others : Db → Db
  pub postgres : Option Text
  pub broker : Option Text

module _ (env : Circumstances) where
  unfoldable pub dispatch : Route → Request → Db → Response × Db
  unfolding health health_answer
  dispatch to_process req d = handle_process env.first req.body d
  dispatch (to_status id) req d = handle_status env.first id d
  dispatch (to_tokens id) req d =
      handle_tokens env.to_upper env.others env.first env.second id req.query d
  dispatch to_health req d = (health_answer (health env.postgres env.broker), d)
  dispatch no_route req d = (write_json 404 (plain_text (codes "404 page not found")), d)
  dispatch wrong_method req d = (write_json 405 (plain_text (codes "Method Not Allowed")), d)

  -- The mux of `Handler`.
  unfoldable pub serve : Request → Db → Response × Db
  unfolding dispatch route
  serve req d = dispatch (route req.method req.path) req d

-- A line of the access log, without its time.
pub record AccessLine : Type 0 where
  pub method : Text
  pub path : List Text
  pub status : ℕ

-- `logging`: the recorder has the status that the handler wrote.
unfoldable pub logging :
    (Request → Db → Response × Db) → Request → Db → (Response × Db) × AccessLine
logging next req d =
    let (r, d') = next req d in
    ((r, d'), record { method = req.method; path = req.path; status = r.code })

-- `Server.Handler`.
unfoldable pub handler : Circumstances → Request → Db → (Response × Db) × AccessLine
unfolding logging serve
handler env = logging (serve env)
