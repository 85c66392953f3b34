-- ===== src/Demo.antt =====
-- lueur-cli/src/demo.rs: the handlers of the demonstration server. The HTTP client, the environment
-- and `to_uppercase` are parameters; a handler that panics sends no response.
pub mod Laws
mod Tests
use Prim.Native.String.{◌++◌ as join}
use lueur.Prelude.{
  String, str_eq, ℕ, Bool, Option, none, some, List, [], ◌∷◌, map, length, Result, ok, err, Run,
  done, ◌>>=◌, unwrap_ok, if◌then◌else◌,
}

-- `reqwest` and `serde_json`; `text` and `json` are those of a response.
pub record Client : Type 1 where
  pub Proxy : Type 0
  pub Builder : Type 0
  pub Handle : Type 0
  pub Response : Type 0
  pub Value : Type 0
  pub builder : Builder
  pub http : String → Result Proxy String
  pub https : String → Result Proxy String
  pub proxy : Proxy → Builder → Builder
  pub build : Builder → Result Handle String
  pub get : Handle → (url : String) → Result Response String
  pub status : Response → ℕ
  pub text : Response → Result (List ℕ) String
  pub json : Response → Result Value String
  pub empty : Value

-- `DemoConfig` of lueur-cli/src/cli.rs.
pub record DemoConfig : Type 0 where
  pub address : String
  pub port : ℕ

-- `run` up to the loop of the server; `bind` is that of a listener.
run : (show : ℕ → String) (bind : String → Result (Unit {0}) String) → DemoConfig → Run (Unit {0})
run show bind config = unwrap_ok (done (bind (join config.address (join ":" (show config.port)))))

-- What a handler answers with.
pub data Answer (Value : Type 0) : Type 0 where
  html : String → Answer Value
  message : (content : String) → Answer Value
  pong : (content : Value) (duration : String) → Answer Value

-- A request that the router has a handler for, with the body of the one that has one.
pub data Route : Type 0 where
  at_index at_ping_myself at_ping at_multi : Route
  at_uppercase : (content : String) → Route

module _ (c : Client) (env : String → Option String) (to_uppercase : String → String) where
  open c use {Builder, Handle, Value, builder, build, get}

  -- One of the two matches of `make_builder`.
  with_proxy : (variable : String) (of : String → Result c.Proxy String) → Builder → Run Builder
  with_proxy variable of b = elim (env variable) [
    | none ↦ done b
    | some addr ↦ do p ← unwrap_ok (done (of addr)); done (c.proxy p b)
  ]

  pub make_builder : Run Builder
  unfolding with_proxy
  make_builder = do b ← with_proxy "HTTP_PROXY" c.http builder; with_proxy "HTTPS_PROXY" c.https b

  pub make_client : Run Handle
  unfolding make_builder
  make_client = do b ← make_builder; unwrap_ok (done (build b))

  upper : (content : String) → Answer Value
  upper content = message (to_uppercase content)

  pub ping_myself : Run (Answer Value)
  unfolding make_client
  ping_myself = do
    client ← make_client
    response ← unwrap_ok (done (get client "http://localhost:7070/"))
    body ← unwrap_ok (done (c.text response))
    done (html "<h1>Hello, World!</h1>")

  -- `duration` is what the clock gives, as text.
  pub ping_remote : (duration : String) → Run (Answer Value)
  unfolding make_client
  ping_remote duration = do
    client ← make_client
    response ← unwrap_ok (done (get client "https://postman-echo.com/get"))
    body ← unwrap_ok (done (c.json response))
    done (pong body duration)

  -- One of the futures, with `?` on both steps: the URL, the status and the length.
  pub fetch : Handle → (url : String) → Result (String × ℕ × ℕ) String
  fetch client url = elim (get client url) [
    | err e ↦ err e
    | ok response ↦ elim (c.text response) [
      | err e ↦ err e
      | ok body ↦ ok (url, c.status response, length body)
    ]
  ]

  urls : List String
  urls = "https://www.example.com/" ∷ "https://postman-echo.com/get" ∷ []

  -- What is printed for each fetch, an error too, and the answer.
  pub multi_fetch : (duration : String) → Run (List (Result (String × ℕ × ℕ) String) × Answer Value)
  unfolding make_client fetch urls
  multi_fetch duration = do
    client ← make_client
    done (map (fetch client) urls, pong c.empty duration)

  -- The router.
  unfoldable pub serve : (duration : String) → Route → Run (Answer Value)
  unfolding upper ping_myself ping_remote multi_fetch
  serve duration at_index = done (html "<h1>Hello, World!</h1>")
  serve duration at_ping_myself = ping_myself
  serve duration at_ping = ping_remote duration
  serve duration at_multi = do fetched ← multi_fetch duration; done fetched.1
  serve duration (at_uppercase content) = done (upper content)
