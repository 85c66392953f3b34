-- ===== src/Plugin/Laws.antt =====
-- The order of the injectors, and how a change of configuration reaches them.
use lueur.Prelude.{◌≡◌, refl, ◌∙◌, ap, List, [], ◌∷◌, ◌++◌, Result, ok, err}
use lueur.Types.StreamSide.{client, server}
use lueur.Config.{FaultConfig}
use lueur.Plugin.{
  Http, FaultInjector, in_turn, CompositePlugin, set_injectors, prepare_client, process_request,
  process_response, inject_all, inject_tunnel_faults, Injectors, push, push_all, load_injectors,
}

module _ (h : Http) where
  open h use {Builder, Request, Response, Bidirectional, E}

  abbrev pub then_apply : {A : Type 0} → Result A E → (A → Result A E) → Result A E
  then_apply (ok a) next = next a
  then_apply (err e) next = err e

  in_turn-append :
      {A : Type 0} (apply : FaultInjector h → A → Result A E) (xs ys : List (FaultInjector h))
      (a : A)
      → in_turn h apply (xs ++ ys) a ≡ then_apply (in_turn h apply xs a) (in_turn h apply ys)
  unfolding in_turn
  in_turn-append apply [] ys a = refl
  in_turn-append apply (x ∷ xs) ys a = go (apply x a) (in_turn-append apply xs ys)
    where
      go :
          (r : Result _ E)
          → ((b : _)
              → in_turn h apply (xs ++ ys) b
                ≡ then_apply (in_turn h apply xs b) (in_turn h apply ys))
          → (elim r [ ok b ↦ in_turn h apply (xs ++ ys) b | err e ↦ err e ])
            ≡ then_apply
                (elim r [ ok b ↦ in_turn h apply xs b | err e ↦ err e ])
                (in_turn h apply ys)
      go (ok b) ih = ih b
      go (err e) ih = refl

  inject_all-append :
      (xs ys : List (FaultInjector h)) (c s : Bidirectional)
      → inject_all h (xs ++ ys) c s
        ≡ inject_all h ys (inject_all h xs c s).0 (inject_all h xs c s).1
  unfolding inject_all
  inject_all-append [] ys c s = refl
  inject_all-append (x ∷ xs) ys c s =
      inject_all-append xs ys (x.inject c client) (x.inject s server)

  in_turn-one :
      {A : Type 0} (apply : FaultInjector h → A → Result A E) (x : FaultInjector h) (r : Result A E)
      → then_apply r (in_turn h apply (x ∷ [])) ≡ then_apply r (apply x)
  unfolding in_turn
  in_turn-one {A} apply x (ok a) = go (apply x a)
    where
      go : (r : Result A E) → (elim r [ ok b ↦ ok b | err e ↦ err e ]) ≡ r
      go (ok b) = refl
      go (err e) = refl
  in_turn-one apply x (err e) = refl

  module _ {F : Type 0} (i : Injectors h F) where
    -- The plugin with the injectors of a list of faults alone.
    abbrev pub of_faults : List (FaultConfig F) → CompositePlugin h
    of_faults faults = record { injectors = load_injectors h i (record { faults = faults }) }

    -- After a change of configuration, whatever the plugin held before: each kind of processing is
    -- that of the new faults' injectors, and then that of the metrics injector; an error of the
    -- former ends it before the metrics injector is asked.
    pub reconfigured_lem :
        (metrics : FaultInjector h) (plugin : CompositePlugin h) (faults : List (FaultConfig F))
        (builder : Builder) (req : Request) (resp : Response) (c s : Bidirectional)
        → let plugin' =
            set_injectors h metrics plugin (load_injectors h i (record { faults = faults })) in
          (prepare_client h plugin' builder
            ≡ then_apply
                (prepare_client h (of_faults faults) builder)
                metrics.apply_on_request_builder)
          × (process_request h plugin' req
              ≡ then_apply (process_request h (of_faults faults) req) metrics.apply_on_request)
          × (process_response h plugin' resp
              ≡ then_apply (process_response h (of_faults faults) resp) metrics.apply_on_response)
          × (inject_tunnel_faults h plugin' c s
              ≡ ok (
                metrics.inject (inject_all h (of_faults faults).injectors c s).0 client,
                metrics.inject (inject_all h (of_faults faults).injectors c s).1 server,
              ))
    unfolding set_injectors prepare_client process_request process_response inject_tunnel_faults
        inject_all
    reconfigured_lem metrics plugin faults builder req resp c s =
        let xs = load_injectors h i (record { faults = faults }) in
        (
          in_turn-append (λ (x : FaultInjector h). x.apply_on_request_builder) xs (metrics ∷ [])
                builder
              ∙ in_turn-one (λ (x : FaultInjector h). x.apply_on_request_builder) metrics _,
          in_turn-append (λ (x : FaultInjector h). x.apply_on_request) xs (metrics ∷ []) req
              ∙ in_turn-one (λ (x : FaultInjector h). x.apply_on_request) metrics _,
          in_turn-append (λ (x : FaultInjector h). x.apply_on_response) xs (metrics ∷ []) resp
              ∙ in_turn-one (λ (x : FaultInjector h). x.apply_on_response) metrics _,
          ap ok (inject_all-append xs (metrics ∷ []) c s),
        )

    push_all-append :
        (xs ys : List (FaultConfig F))
        → push_all h i (xs ++ ys) ≡ push_all h i xs ++ push_all h i ys
    unfolding push_all push
    push_all-append [] ys = refl
    push_all-append (FaultConfig.dns x ∷ xs) ys = ap (λ r. i.of_dns x ∷ r) (push_all-append xs ys)
    push_all-append (FaultConfig.latency x ∷ xs) ys =
        ap (λ r. i.of_latency x ∷ r) (push_all-append xs ys)
    push_all-append (FaultConfig.packet_loss x ∷ xs) ys =
        ap (λ r. i.of_packet_loss x ∷ r) (push_all-append xs ys)
    push_all-append (FaultConfig.bandwidth x ∷ xs) ys =
        ap (λ r. i.of_bandwidth x ∷ r) (push_all-append xs ys)
    push_all-append (FaultConfig.jitter x ∷ xs) ys =
        ap (λ r. i.of_jitter x ∷ r) (push_all-append xs ys)
    push_all-append (FaultConfig.packet_duplication x ∷ xs) ys = push_all-append xs ys
    push_all-append (FaultConfig.http_error x ∷ xs) ys =
        ap (λ r. i.of_http_error x ∷ r) (push_all-append xs ys)

    -- Faults are applied in the order of the configuration: a request and a response are processed
    -- under the first faults and then, if these gave no error, under the others.
    pub faults_in_order :
        (xs ys : List (FaultConfig F)) (req : Request) (resp : Response)
        → (process_request h (of_faults (xs ++ ys)) req
            ≡ then_apply (process_request h (of_faults xs) req) (process_request h (of_faults ys)))
          × (process_response h (of_faults (xs ++ ys)) resp
              ≡ then_apply
                  (process_response h (of_faults xs) resp)
                  (process_response h (of_faults ys)))
    unfolding process_request process_response load_injectors
    faults_in_order xs ys req resp = (
      ap (λ l. in_turn h (λ (x : FaultInjector h). x.apply_on_request) l req)
            (push_all-append xs ys)
          ∙ in_turn-append (λ (x : FaultInjector h). x.apply_on_request) (push_all h i xs)
              (push_all h i ys) req,
      ap (λ l. in_turn h (λ (x : FaultInjector h). x.apply_on_response) l resp)
            (push_all-append xs ys)
          ∙ in_turn-append (λ (x : FaultInjector h). x.apply_on_response) (push_all h i xs)
              (push_all h i ys) resp,
    )
