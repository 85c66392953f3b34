-- ===== src/Plugin/Rpc/Laws.antt =====
-- Which remote plugins see a body, and which responses survive them.
use lueur.Prelude.{
  ℕ, ◌≡◌, ◌↔◌, refl, true, not, ◌&&◌, is_ok, List, [], ◌∷◌, panic, arith, Option-cases,
  Result-cases, inl, inr, if◌then◌else◌,
}
use lueur.Types.Direction.{is_ingress}
use lueur.Proxy.Forward.{Response}
use lueur.Plugin.Rpc.{
  Service, RemotePlugin, Request, request_loop, response_loop, process_request, process_response,
  has,
}

module _ (s : Service) where
  abbrev pub ingress_plugins : List (RemotePlugin s) → List (RemotePlugin s)
  ingress_plugins [] = []
  ingress_plugins (plugin ∷ plugins) =
      if is_ingress plugin.direction
      then plugin ∷ ingress_plugins plugins
      else ingress_plugins plugins

  request_loop-ingress :
      (plugins : List (RemotePlugin s)) (bytes : List ℕ)
      → request_loop s plugins bytes ≡ request_loop s (ingress_plugins plugins) bytes
  unfolding request_loop
  request_loop-ingress [] bytes = refl
  request_loop-ingress (plugin ∷ plugins) bytes =
      elim (Result-cases (s.process_request plugin.client bytes)) [
        | inl (modified, e) ↦
            ground
              (arith, request_loop-ingress plugins modified, request_loop-ingress plugins bytes)
        | inr (x, e) ↦ ground (arith, request_loop-ingress plugins bytes)
      ]

  -- A request is processed by the ingress plugins alone, each given what the one before it returned; the plugins
  -- that are for egress only might as well not be there.
  pub process_request-ingress :
      {Url : Type 0} (plugins : List (RemotePlugin s)) (req : Request Url)
      → process_request s plugins req ≡ process_request s (ingress_plugins plugins) req
  unfolding process_request
  process_request-ingress plugins req = elim (Option-cases req.body) [
    | inl empty ↦ ground arith
    | inr (b, e) ↦ elim (Option-cases b) [
      | inl streamed ↦ ground arith
      | inr (bytes, e') ↦ ground (arith, request_loop-ingress plugins bytes)
    ]
  ]

  -- A response without a content-length makes the processing panic, unless a plugin fails first;
  -- with one, it does not panic. This is so even if there is no plugin.
  pub process_response-panic_iff :
      (plugins : List (RemotePlugin s)) (res : Response)
      → (process_response s plugins res ≡ panic) ↔ (
          (is_ok (response_loop s plugins res.body) && not (has s res.headers "content-length"))
          ≡ true)
  unfolding process_response
  process_response-panic_iff plugins res = ground arith
