-- ===== src/Proxy/Tunnel/Laws.antt =====
-- How a tunnel's task ends.
use lueur.Prelude.{
  String, ℕ, ◌≡◌, Bool, true, false, List, [], ◌∷◌, done, bind_done, unwrap, Result-cases, inl, inr,
  arith,
}
use lueur.Event.{Report, on_started, on_resolved, on_completed, on_error}
use lueur.Plugin.{Http, CompositePlugin, inject_tunnel_faults}
use lueur.Upstream.{UrlApi}
use lueur.Proxy.Tunnel.{
  Net, streams, ended, connected, tunnel, handle_connect, first, resolve_addresses,
}

-- The reports end a task that they start.
abbrev pub ends_task : {F : Type 0} → List (Report F) → Bool
ends_task [] = false
ends_task (on_completed _ _ _ ∷ []) = true
ends_task (on_error _ ∷ []) = true
ends_task (r ∷ []) = false
ends_task (r ∷ r' ∷ reports) = ends_task (r' ∷ reports)

module _ {F : Type 0} (h : Http) {Ip : Type 0} (net : Net Ip h.Bidirectional) where
  connected-ends :
      (plugins : CompositePlugin h) (passthrough : Bool) (elapsed : ℕ)
      (client server : h.Bidirectional) (upstream host : String) (time : F)
      → ends_task (
          on_started upstream
          ∷ on_resolved host time
          ∷ connected h net plugins passthrough elapsed client server)
        ≡ true
  unfolding connected ended streams inject_tunnel_faults
  connected-ends plugins passthrough elapsed client server upstream host time = ground arith

  tunnel-ends :
      (plugins : CompositePlugin h) (passthrough : Bool) (resolved_in : F) (elapsed : ℕ)
      (upstream host : String) (port : ℕ) (reports : List (Report F))
      → tunnel h net plugins passthrough resolved_in elapsed upstream host port ≡ done reports
      → ends_task reports ≡ true
  unfolding tunnel
  tunnel-ends plugins passthrough resolved_in elapsed upstream host port reports e =
      let (addresses, e1, r1) = bind_done (resolve_addresses net host) _ reports e in
      let (addr, e2, r2) = bind_done (first addresses) _ reports r1 in
      elim (Result-cases net.upgrade) [
        | inr (x, u) ↦ ground arith
        | inl (client, u) ↦ elim (Result-cases (net.connect addr port)) [
          | inr (x, c) ↦ ground arith
          | inl (server, c) ↦ ground (
            arith,
            connected-ends plugins passthrough elapsed client server upstream host resolved_in,
          )
        ]
      ]

  -- A CONNECT request is answered with an empty 200. The task of its tunnel, unless it panics, ends
  -- with a report of completion or of an error, whatever the network and the plugins do.
  pub handle_connect-ends :
      (u : UrlApi) (url_text : u.Url → String) (plugins : CompositePlugin h) (passthrough : Bool)
      (resolved_in : F) (elapsed : ℕ) (upstream : u.Url) (status : ℕ) (reports : List (Report F))
      → handle_connect h net u url_text plugins passthrough resolved_in elapsed upstream
        ≡ done (status, done reports)
      → (status ≡ 200) × (ends_task reports ≡ true)
  unfolding handle_connect
  handle_connect-ends u url_text plugins passthrough resolved_in elapsed upstream status reports e =
      let (host, e1, r1) = bind_done (unwrap (u.host_str upstream)) _ (status, done reports) e in
      let (port, e2, r2) =
        bind_done (unwrap (u.port_or_known_default upstream)) _ (status, done reports) r1 in
      (
        cc r2,
        tunnel-ends plugins passthrough resolved_in elapsed (url_text upstream) host port reports
            (cc r2),
      )
