-- ===== src/Plugin/Rpc.antt =====
-- lueur-cli/src/plugin/rpc/mod.rs: the remote plugins. A gRPC client is a parameter: what it answers
-- to a call, or the text of the error. Its `addr` stands for the connection.
pub mod Laws
mod Tests
use lueur.Prelude.{
  String, str_eq, ℕ, Bool, Option, none, some, List, [], ◌∷◌, Result, ok, err, Run, done, panic,
  ◌>>=◌, unwrap, if◌then◌else◌,
}
use lueur.Errors.{ProxyError, rpc_connection_error, rpc_call_error}
use lueur.Types.Direction.{Direction, from_str, is_ingress}
use lueur.Proxy.Forward.{Response}
use lueur.Proxy.Forward.Headers.{HeaderMap}

pub record GetPluginInfoResponse : Type 0 where
  pub name : String
  pub version : String
  pub author : String
  pub url : String
  pub platform : String
  pub direction : String

-- `PluginServiceClient` of the generated code.
pub record Service : Type 1 where
  pub Client : Type 0
  pub connect : (addr : String) → Result Client String
  pub get_plugin_info : Client → Result GetPluginInfoResponse String
  pub process_request : Client → List ℕ → Result (List ℕ) String
  pub process_response : Client → List ℕ → Result (List ℕ) String

abbrev pub Answer : Type 0 → Type 0
Answer A = Run (Result A ProxyError)

-- A request of `reqwest`; a body that is a stream has no bytes.
pub record Request (Url : Type 0) : Type 0 where
  pub method : String
  pub url : Url
  pub headers : HeaderMap
  pub body : Option (Option (List ℕ))

module _ (s : Service) where
  open s use {Client, connect, get_plugin_info}

  pub record RemotePlugin : Type 0 where
    pub name : String
    pub version : String
    pub author : Option String
    pub url : Option String
    pub platform : Option String
    pub client : Client
    pub direction : Direction

  optional : String → Option String
  optional text = if str_eq text "" then none else some text

  remote_plugin : Client → GetPluginInfoResponse → Direction → RemotePlugin
  unfolding optional
  remote_plugin client info direction = record {
    name = info.name;
    version = info.version;
    author = optional info.author;
    url = optional info.url;
    platform = optional info.platform;
    client = client;
    direction = direction;
  }

  pushed : List RemotePlugin → RemotePlugin → List RemotePlugin
  pushed [] plugin = plugin ∷ []
  pushed (p ∷ plugins) plugin = p ∷ pushed plugins plugin

  add_info :
      List RemotePlugin
      → Client
      → (to_lowercase : String → String) → GetPluginInfoResponse
      → Answer (List RemotePlugin)
  unfolding pushed remote_plugin
  add_info plugins client to_lowercase info = do
    direction ← unwrap (from_str to_lowercase info.direction)
    done (ok (pushed plugins (remote_plugin client info direction)))

  -- The manager is its list of plugins. A direction that is not known panics.
  pub add_plugin_server :
      (to_lowercase : String → String)
      → List RemotePlugin
      → (addr : String) → Answer (List RemotePlugin)
  unfolding add_info
  add_plugin_server to_lowercase plugins addr = elim (connect addr) [
    | err e ↦ done (err (rpc_connection_error addr e))
    | ok client ↦ elim (get_plugin_info client) [
      | err e ↦ done (err (rpc_call_error addr "GetPluginInfo" e))
      | ok info ↦ add_info plugins client to_lowercase info
    ]
  ]

  -- `RpcPlugin::new`, from the plugins added so far: an error is dropped.
  pub new :
      (to_lowercase : String → String)
      → List RemotePlugin
      → (addresses : List String) → Run (List RemotePlugin)
  unfolding add_plugin_server
  new to_lowercase plugins [] = done plugins
  new to_lowercase plugins (addr ∷ addresses) = do
    added ← add_plugin_server to_lowercase plugins addr
    new to_lowercase (elim added [ ok plugins' ↦ plugins' | err e ↦ plugins ]) addresses

  -- The two loops over the plugins.
  pub request_loop : List RemotePlugin → List ℕ → Result (List ℕ) ProxyError
  request_loop [] modified_request = ok modified_request
  request_loop (plugin ∷ plugins) modified_request =
      if is_ingress plugin.direction
      then elim (s.process_request plugin.client modified_request) [
        | err e ↦ err (rpc_call_error plugin.name "ProcessRequest" e)
        | ok modified ↦ request_loop plugins modified
      ]
      else request_loop plugins modified_request

  pub response_loop : List RemotePlugin → List ℕ → Result (List ℕ) ProxyError
  response_loop [] modified_response = ok modified_response
  response_loop (plugin ∷ plugins) modified_response =
      elim (s.process_response plugin.client modified_response) [
        | err e ↦ err (rpc_call_error plugin.name "ProcessResponse" e)
        | ok modified ↦ response_loop plugins modified
      ]

  -- A request without a body, or whose body is a stream, panics.
  unfoldable pub process_request :
      {Url : Type 0} → List RemotePlugin → Request Url → Answer (Request Url)
  unfolding request_loop
  process_request plugins req = do
    body ← unwrap req.body
    body_bytes ← unwrap body
    elim (request_loop plugins body_bytes) [
      | err e ↦ done (err e)
      | ok modified ↦ done (ok (record req { body = some (some modified) }))
    ]

  -- `remove`, and what it removed.
  pub has : HeaderMap → String → Bool
  has [] name = Bool.false
  has ((key, value) ∷ headers) name = if str_eq key name then Bool.true else has headers name

  without : HeaderMap → String → HeaderMap
  without [] name = []
  without ((key, value) ∷ headers) name =
      if str_eq key name then without headers name else (key, value) ∷ without headers name

  -- Every plugin is asked, whatever its direction. The builder appends each header, so it has those
  -- of the response; `remove` is unwrapped. The builder does not fail on parts of a response.
  unfoldable pub process_response : List RemotePlugin → Response → Answer Response
  unfolding response_loop has without
  process_response plugins res = elim (response_loop plugins res.body) [
    | err e ↦ done (err e)
    | ok modified ↦
        if has res.headers "content-length"
        then done
            (ok (record res { headers = without res.headers "content-length"; body = modified }))
        else panic
  ]
