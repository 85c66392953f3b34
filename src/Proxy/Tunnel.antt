-- ===== src/Proxy/Tunnel.antt =====
-- lueur-cli/src/proxy/tunnel.rs: a CONNECT request. The resolver, the upgrade, the connection and the
-- copying of bytes are parameters: what each gives when it is asked.
pub mod Laws
use lueur.Prelude.{
  unwrap_ok, String, ℕ, Bool, true, false, Option, none, some, List, [], ◌∷◌, Result, ok, err, Run,
  done, panic, ◌>>=◌, unwrap, if◌then◌else◌,
}
use lueur.Event.{Report, on_started, on_resolved, on_response, on_completed, on_error}
use lueur.Plugin.{Http, CompositePlugin, inject_tunnel_faults}
use lueur.Upstream.{UrlApi}

-- An I/O error, and whether its kind is `NotConnected`.
pub record IoError : Type 0 where
  pub text : String
  pub not_connected : Bool

-- What the copying in one direction gave, and the error of the shutdown that follows it.
pub record Copied : Type 0 where
  pub count : Result ℕ IoError
  pub shutdown : Option IoError

client_to_server : Copied → Result ℕ IoError
client_to_server c = elim (c.count) [
  | err e ↦ err e
  | ok count ↦ elim (c.shutdown) [ none ↦ ok count | some e ↦ err e ]
]

-- The client may have closed its side already.
server_to_client : Copied → Result ℕ IoError
server_to_client c = elim (c.count) [
  | err e ↦ err e
  | ok count ↦ elim (c.shutdown) [
    | none ↦ ok count
    | some e ↦ if e.not_connected then ok count else err e
  ]
]

-- `try_join!`: the error that comes first, if there are two.
join : (client_first : Bool) → Result ℕ IoError → Result ℕ IoError → Result (ℕ × ℕ) IoError
join client_first (ok c2s_count) (ok s2c_count) = ok (c2s_count, s2c_count)
join client_first (ok c2s_count) (err e) = err e
join client_first (err e) (ok s2c_count) = err e
join client_first (err e) (err e') = if client_first then err e else err e'

unfoldable pub bidirectional_copy : (client_first : Bool) → Copied → Copied → Result (ℕ × ℕ) IoError
unfolding client_to_server server_to_client join
bidirectional_copy client_first c2s s2c =
    join client_first (client_to_server c2s) (server_to_client s2c)

-- The network, for one request. `copied` is what both directions give, for the two streams.
pub record Net (Ip Stream : Type 0) : Type 0 where
  pub lookup_ip : (host : String) → Result (List Ip) String
  pub upgrade : Result Stream IoError
  pub connect : Ip → (port : ℕ) → Result Stream IoError
  pub copied : Stream → Stream → Bool × Copied × Copied

-- `addresses[0]`
first : {A : Type 0} → List A → Run A
first [] = panic
first (x ∷ xs) = done x

resolve_addresses : {Ip Stream : Type 0} → Net Ip Stream → String → Run (List Ip)
resolve_addresses net host = unwrap_ok (done (net.lookup_ip host))

streams :
    (h : Http)
    → CompositePlugin h
    → (passthrough : Bool) → h.Bidirectional
    → h.Bidirectional
    → Result (h.Bidirectional × h.Bidirectional) h.E
streams h plugins passthrough client_stream server_stream =
    if passthrough
    then ok (client_stream, server_stream)
    else inject_tunnel_faults h plugins client_stream server_stream

-- The match on what was copied.
ended : {F : Type 0} → (elapsed : ℕ) → Result (ℕ × ℕ) IoError → List (Report F)
ended elapsed (ok (bytes_from_client, bytes_to_server)) =
    on_response 0 ∷ on_completed elapsed bytes_from_client bytes_to_server ∷ []
ended elapsed (err e) = on_error e.text ∷ []

module _ {F : Type 0} (h : Http) {Ip : Type 0} (net : Net Ip h.Bidirectional) where
  -- From the connection on; a plugin's error is only logged.
  connected :
      CompositePlugin h
      → (passthrough : Bool) (elapsed : ℕ) → h.Bidirectional
      → h.Bidirectional
      → List (Report F)
  unfolding streams ended bidirectional_copy
  connected plugins passthrough elapsed client_stream server_stream =
      elim (streams h plugins passthrough client_stream server_stream) [
        | err e ↦ []
        | ok both ↦
            let (client_first, c2s, s2c) = net.copied both.0 both.1 in
            ended elapsed (bidirectional_copy client_first c2s s2c)
      ]

  -- The task that is spawned. `resolved_in` is the time that the look-up took.
  tunnel :
      CompositePlugin h
      → (passthrough : Bool) (resolved_in : F) (elapsed : ℕ) (upstream host : String) (port : ℕ)
      → Run (List (Report F))
  unfolding resolve_addresses first connected
  tunnel plugins passthrough resolved_in elapsed upstream host port = do
    addresses ← resolve_addresses net host
    addr ← first addresses
    elim (net.upgrade) [
      | err e ↦ done (on_error e.text ∷ [])
      | ok upgraded ↦ elim (net.connect addr port) [
        | err e ↦ done (on_error e.text ∷ [])
        | ok raw_server_stream ↦ done (
            on_started upstream
            ∷ on_resolved host resolved_in
            ∷ connected plugins passthrough elapsed upgraded raw_server_stream)
      ]
    ]

  -- The response is empty and does not wait for the task, whose outcome is the second component.
  unfoldable pub handle_connect :
      (u : UrlApi) (url_text : u.Url → String) (plugins : CompositePlugin h) (passthrough : Bool)
      (resolved_in : F) (elapsed : ℕ)
      → u.Url
      → Run (ℕ × Run (List (Report F)))
  unfolding tunnel
  handle_connect u url_text plugins passthrough resolved_in elapsed upstream = do
    target_host ← unwrap (u.host_str upstream)
    target_port ← unwrap (u.port_or_known_default upstream)
    done (
      200,
      tunnel plugins passthrough resolved_in elapsed (url_text upstream) target_host target_port,
    )
