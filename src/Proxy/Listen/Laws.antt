-- ===== src/Proxy/Listen/Laws.antt =====
-- What reaches the proxy while it runs.
use mathlib.Core.Path.{subst}
use mathlib.Core.List.{append-nil, append_assoc}
use lueur.Prelude.{
  String, ◌≡◌, refl, sym, ap, Bool, true, false, Option, none, some, List, [], ◌∷◌, ◌++◌, Result,
  ok, err, if◌then◌else◌,
}
use lueur.Errors.{ProxyError}
use lueur.Config.{ProxyConfig}
use lueur.Plugin.{Http, FaultInjector, Injectors, set_injectors}
use lueur.Proxy.Dispatch.{ProxyState, on_config}
use lueur.Proxy.Listen.{
  Happening, config_changed, config_closed, shutdown, accepted, accept_failed, Listener, Running,
  Socket, configure, configure_all, accept_loop, run_proxy, text, listen,
}

module _ {F Conn : Type 0} where
  -- What happens before the first signal to stop, and whether there is one.
  abbrev pub before_shutdown : List (Happening F Conn) → List (Happening F Conn)
  before_shutdown [] = []
  before_shutdown (shutdown ∷ xs) = []
  before_shutdown (x ∷ xs) = x ∷ before_shutdown xs

  abbrev pub has_shutdown : List (Happening F Conn) → Bool
  has_shutdown [] = false
  has_shutdown (shutdown ∷ xs) = true
  has_shutdown (x ∷ xs) = has_shutdown xs

  abbrev pub connections : List (Happening F Conn) → List Conn
  connections [] = []
  connections (accepted stream ∷ xs) = stream ∷ connections xs
  connections (x ∷ xs) = connections xs

  -- The last configuration before the sender is gone, or else `found`.
  abbrev pub last_config : Option (ProxyConfig F) → List (Happening F Conn) → Option (ProxyConfig F)
  last_config found [] = found
  last_config found (config_changed c ∷ xs) = last_config (some c) xs
  last_config found (config_closed ∷ xs) = found
  last_config found (x ∷ xs) = last_config found xs

module _ {F : Type 0} (h : Http) (metrics : FaultInjector h) (i : Injectors h F) where
  abbrev pub with_config : ProxyState F h → Option (ProxyConfig F) → ProxyState F h
  with_config state none = state
  with_config state (some c) = on_config h metrics i state c

  reconfigured :
      (state : ProxyState F h) (found : Option (ProxyConfig F)) (c : ProxyConfig F)
      → on_config h metrics i (with_config state found) c ≡ on_config h metrics i state c
  unfolding on_config set_injectors
  reconfigured state none c = refl
  reconfigured state (some c') c = refl

module _ {F Conn : Type 0} (h : Http) (metrics : FaultInjector h) (i : Injectors h F) where
  abbrev configured : ProxyState F h → List Conn → Listener F h Conn
  configured state served = record { state = state; configuring = true; served = served }

  abbrev still : ProxyState F h → List Conn → Listener F h Conn
  still state served = record { state = state; configuring = false; served = served }

  configure_all-idle :
      (xs : List (Happening F Conn)) (state : ProxyState F h) (served : List Conn)
      → configure_all h metrics i xs (still state served) ≡ still state served
  unfolding configure_all configure
  configure_all-idle [] state served = refl
  configure_all-idle (config_changed c ∷ xs) state served = configure_all-idle xs state served
  configure_all-idle (config_closed ∷ xs) state served = configure_all-idle xs state served
  configure_all-idle (shutdown ∷ xs) state served = configure_all-idle xs state served
  configure_all-idle (accepted stream ∷ xs) state served = configure_all-idle xs state served
  configure_all-idle (accept_failed cause ∷ xs) state served = configure_all-idle xs state served

  abbrev Configured : ProxyState F h → List Conn → Listener F h Conn → Type 0
  Configured state served l = (l.state ≡ state) × (l.served ≡ served)

  configure_all-last :
      (xs : List (Happening F Conn)) (state : ProxyState F h) (found : Option (ProxyConfig F))
      (served : List Conn)
      → Configured
          (with_config h metrics i state (last_config found xs))
          served
          (configure_all h metrics i xs (configured (with_config h metrics i state found) served))
  unfolding configure_all configure
  configure_all-last [] state found served = (refl, refl)
  configure_all-last (config_changed c ∷ xs) state found served =
      subst
        (λ st.
          Configured (with_config h metrics i state (last_config (some c) xs)) served
            (configure_all h metrics i xs (configured st served)))
        (sym (reconfigured h metrics i state found c)) (configure_all-last xs state (some c) served)
  configure_all-last (config_closed ∷ xs) state found served =
      rw (configure_all-idle xs (with_config h metrics i state found) served) (refl, refl)
  configure_all-last (shutdown ∷ xs) state found served = configure_all-last xs state found served
  configure_all-last (accepted stream ∷ xs) state found served =
      configure_all-last xs state found served
  configure_all-last (accept_failed cause ∷ xs) state found served =
      configure_all-last xs state found served

  -- What the loop leaves.
  abbrev Looped : ProxyState F h → List Conn → Bool → Listener F h Conn × Bool → Type 0
  Looped state served ended r = (r.0.state ≡ state) × (r.0.served ≡ served) × (r.1 ≡ ended)

  add_one :
      (served : List Conn) (stream : Conn) (later : List Conn)
      → (served ++ stream ∷ []) ++ later ≡ served ++ stream ∷ later
  add_one served stream later = append_assoc served (stream ∷ []) later

  accept_loop-idle :
      (xs : List (Happening F Conn)) (state : ProxyState F h) (served : List Conn)
      → Looped state
          (served ++ connections (before_shutdown xs))
          (has_shutdown xs)
          (accept_loop h metrics i xs (still state served))
  unfolding accept_loop configure
  accept_loop-idle [] state served = (refl, sym (append-nil served), refl)
  accept_loop-idle (config_changed c ∷ xs) state served = accept_loop-idle xs state served
  accept_loop-idle (config_closed ∷ xs) state served = accept_loop-idle xs state served
  accept_loop-idle (shutdown ∷ xs) state served = (refl, sym (append-nil served), refl)
  accept_loop-idle (accepted stream ∷ xs) state served =
      rw (sym (add_one served stream (connections (before_shutdown xs))))
        (accept_loop-idle xs state (served ++ stream ∷ []))
  accept_loop-idle (accept_failed cause ∷ xs) state served = accept_loop-idle xs state served

  accept_loop-last :
      (xs : List (Happening F Conn)) (state : ProxyState F h) (found : Option (ProxyConfig F))
      (served : List Conn)
      → Looped
          (with_config h metrics i state (last_config found (before_shutdown xs)))
          (served ++ connections (before_shutdown xs))
          (has_shutdown xs)
          (accept_loop h metrics i xs (configured (with_config h metrics i state found) served))
  unfolding accept_loop configure
  accept_loop-last [] state found served = (refl, sym (append-nil served), refl)
  accept_loop-last (config_changed c ∷ xs) state found served =
      subst
        (λ st.
          Looped (with_config h metrics i state (last_config (some c) (before_shutdown xs)))
            (served ++ connections (before_shutdown xs)) (has_shutdown xs)
            (accept_loop h metrics i xs (configured st served)))
        (sym (reconfigured h metrics i state found c)) (accept_loop-last xs state (some c) served)
  accept_loop-last (config_closed ∷ xs) state found served =
      accept_loop-idle xs (with_config h metrics i state found) served
  accept_loop-last (shutdown ∷ xs) state found served = (refl, sym (append-nil served), refl)
  accept_loop-last (accepted stream ∷ xs) state found served =
      rw (sym (add_one served stream (connections (before_shutdown xs))))
        (accept_loop-last xs state found (served ++ stream ∷ []))
  accept_loop-last (accept_failed cause ∷ xs) state found served =
      accept_loop-last xs state found served

  -- What a proxy has come to whose socket is bound, or is not.
  abbrev pub Came :
      (s : Socket)
      → s.Addr
      → ProxyState F h
      → List (Happening F Conn)
      → Result (Unit {0}) String
      → Running F h Conn
      → Type 0
  Came s addr state xs (ok u) r =
      (r.ready ≡ true)
      × (r.listener.served ≡ connections (before_shutdown xs))
      × (r.listener.state ≡ with_config h metrics i state (last_config none (before_shutdown xs)))
      × (r.returned ≡ (if has_shutdown xs then some (ok tt) else none))
  Came s addr state xs (err e) r =
      (r.ready ≡ false)
      × (r.listener.served ≡ [])
      × (r.listener.state ≡ with_config h metrics i state (last_config none xs))
      × (r.returned
          ≡ some (err (ProxyError.io_error (text "Failed to bind to address " (s.show addr) e))))

  listen-Came :
      (s : Socket) (addr : s.Addr) (bound : Result (Unit {0}) String) (state : ProxyState F h)
      (xs : List (Happening F Conn))
      → Came s addr state xs bound (listen h metrics i s addr bound state xs)
  unfolding listen
  listen-Came s addr (ok u) state xs =
      let (held, heard, ended) = accept_loop-last xs state none [] in
      (refl, heard, held, ap (λ b. if b then some (ok tt) else none) ended)
  listen-Came s addr (err e) state xs =
      let (held, heard) = configure_all-last xs state none [] in (refl, heard, held, refl)

  -- A proxy whose address can be parsed is ready exactly if the socket can be bound. Then it serves
  -- the connections that are accepted before the first signal to stop, in their order and whatever
  -- attempts fail in between, and it has the last configuration that was sent before that signal
  -- and before the sender was gone; it returns `Ok`, and does so once there is the signal. If the
  -- socket cannot be bound it returns an error and serves nothing, but its task for configurations
  -- goes on, and no signal stops it.
  pub run_proxy-Came :
      (s : Socket) (address : String) (addr : s.Addr) (state : ProxyState F h)
      (xs : List (Happening F Conn))
      → s.parse address ≡ ok addr
      → Came s addr state xs (s.bind addr) (run_proxy h metrics i s address state xs)
  unfolding run_proxy
  run_proxy-Came s address addr state xs parsed =
      rw (run_proxy, parsed) (listen-Came s addr (s.bind addr) state xs)
