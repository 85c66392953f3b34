-- ===== src/Proxy/Listen.antt =====
-- `run_proxy` of lueur-cli/src/proxy/mod.rs as a task: what it does with the configurations that are
-- sent, the connections, and the signal to stop. The order of what happens is that of a list; the
-- socket and the parser of addresses are parameters.
pub mod Laws
mod Tests
use Prim.Native.String.{◌++◌ as join}
use lueur.Prelude.{
  String, Bool, true, false, Option, none, some, List, [], ◌∷◌, ◌++◌, Result, ok, err,
  if◌then◌else◌,
}
use lueur.Errors.{ProxyError, internal}
use lueur.Config.{ProxyConfig}
use lueur.Plugin.{Http, FaultInjector, Injectors}
use lueur.Proxy.Dispatch.{ProxyState, on_config}

abbrev pub text : (what address cause : String) → String
text what address cause = join what (join address (join ": " cause))

-- What `changed`, `recv` and `accept` return: a configuration, or that its sender is gone; a signal,
-- or that no more can come; a connection, or an error.
pub data Happening (F Conn : Type 0) : Type 0 where
  config_changed : ProxyConfig F → Happening F Conn
  config_closed : Happening F Conn
  shutdown : Happening F Conn
  accepted : (stream : Conn) → Happening F Conn
  accept_failed : (cause : String) → Happening F Conn

-- The state, whether the task for configurations runs, and the connections that are served.
pub record Listener (F : Type 0) (h : Http) (Conn : Type 0) : Type 0 where
  pub state : ProxyState F h
  pub configuring : Bool
  pub served : List Conn

-- What `run_proxy` leaves: whether it has signalled that it is ready, and what it has returned, if
-- it has.
pub record Running (F : Type 0) (h : Http) (Conn : Type 0) : Type 0 where
  pub listener : Listener F h Conn
  pub ready : Bool
  pub returned : Option (Result (Unit {0}) ProxyError)

-- The socket: `parse` of the address, and `bind`.
pub record Socket : Type 1 where
  pub Addr : Type 0
  pub parse : String → Result Addr String
  pub bind : Addr → Result (Unit {0}) String
  pub show : Addr → String

module _ {F Conn : Type 0} (h : Http) (metrics : FaultInjector h) (i : Injectors h F) where
  -- A round of the task for configurations, which ends when the sender is gone.
  configure : Happening F Conn → Listener F h Conn → Listener F h Conn
  configure (config_changed new_config) l =
      if l.configuring then record l { state = on_config h metrics i l.state new_config } else l
  configure config_closed l = record l { configuring = false }
  configure _ l = l

  -- That task alone.
  configure_all : List (Happening F Conn) → Listener F h Conn → Listener F h Conn
  unfolding configure
  configure_all [] l = l
  configure_all (x ∷ xs) l = configure_all xs (configure x l)

  -- The loop of `select!`, beside that task, and whether it has ended. The signal aborts the task.
  accept_loop : List (Happening F Conn) → Listener F h Conn → Listener F h Conn × Bool
  unfolding configure
  accept_loop [] l = (l, false)
  accept_loop (shutdown ∷ xs) l = (record l { configuring = false }, true)
  accept_loop (accepted stream ∷ xs) l =
      accept_loop xs (record l { served = l.served ++ stream ∷ [] })
  accept_loop (accept_failed cause ∷ xs) l = accept_loop xs l
  accept_loop (x ∷ xs) l = accept_loop xs (configure x l)

  abbrev pub idle : ProxyState F h → Listener F h Conn
  idle state = record { state = state; configuring = false; served = [] }

  -- From `bind` on.
  pub listen :
      (s : Socket)
      → s.Addr
      → (bound : Result (Unit {0}) String) → ProxyState F h
      → List (Happening F Conn)
      → Running F h Conn
  unfolding configure_all accept_loop
  listen s addr (err e) state xs = record {
    listener = configure_all xs (record (idle state) { configuring = true });
    ready = false;
    returned = some (err (ProxyError.io_error (text "Failed to bind to address " (s.show addr) e)));
  }
  listen s addr (ok u) state xs =
      let (listener, ended) = accept_loop xs (record (idle state) { configuring = true }) in
      record { listener = listener; ready = true; returned = if ended then some (ok tt) else none }

  pub run_proxy :
      Socket
      → (proxy_address : String) → ProxyState F h
      → List (Happening F Conn)
      → Running F h Conn
  unfolding listen
  run_proxy s proxy_address state xs = elim (s.parse proxy_address) [
    | err e ↦ record {
      listener = idle state;
      ready = false;
      returned = some (err (internal (text "Failed to parse proxy address " proxy_address e)));
    }
    | ok addr ↦ listen s addr (s.bind addr) state xs
  ]
