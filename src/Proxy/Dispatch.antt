-- ===== src/Proxy/Dispatch.antt =====
-- `ProxyState`, and the service of `run_proxy`, of lueur-cli/src/proxy/mod.rs, up to the call of
-- `handle_connect` or `handle_request`.
pub mod Laws
pub mod Hosts
pub mod Requests
use lueur.Prelude.{
  String, str_eq, ℕ, Bool, true, false, not, ◌||◌, Option, none, some, List, [], ◌∷◌, Result, ok,
  err, Run, done, ◌>>=◌, unwrap, if◌then◌else◌,
}
use lueur.Errors.{ProxyError}
use lueur.Config.{ProxyConfig}
use lueur.Event.{TaskManager, ProxyTaskEvent, new_fault_event, new_passthrough_event}
use lueur.Plugin.{
  Http, FaultInjector, CompositePlugin, empty, set_injectors, Injectors, load_injectors,
}
use lueur.Upstream.{UrlApi, get_host}
use lueur.Proxy.Target.{determine_upstream}

pub record ProxyState (F : Type 0) (h : Http) : Type 0 where
  pub plugins : CompositePlugin h
  pub shared_config : ProxyConfig F
  pub upstream_hosts : List String
  pub stealth : Bool

module _ {F : Type 0} (h : Http) where
  unfoldable pub new : (stealth : Bool) → ProxyState F h
  new stealth = record {
    plugins = empty h;
    shared_config = record { faults = [] };
    upstream_hosts = [];
    stealth = stealth;
  }

  unfoldable pub update_upstream_hosts : ProxyState F h → List String → ProxyState F h
  update_upstream_hosts state new_hosts = record state { upstream_hosts = new_hosts }

  set_faults :
      (metrics : FaultInjector h) → ProxyState F h → List (FaultInjector h) → ProxyState F h
  set_faults metrics state new_faults = record state {
    plugins = set_injectors h metrics state.plugins new_faults;
  }

  update_config : ProxyState F h → ProxyConfig F → ProxyState F h
  update_config state new_config = record state { shared_config = new_config }

  -- A round of the task that waits for changes of the configuration.
  unfoldable pub on_config :
      (metrics : FaultInjector h) → Injectors h F → ProxyState F h → ProxyConfig F → ProxyState F h
  unfolding set_faults update_config
  on_config metrics i state new_config =
      set_faults metrics (update_config state new_config) (load_injectors h i new_config)

-- `Vec::contains`
unfoldable pub contains : List String → String → Bool
contains [] host = false
contains (h ∷ hs) host = str_eq h host || contains hs host

-- What the service looks at in a request.
pub record Incoming : Type 0 where
  pub is_connect : Bool
  pub scheme : Option String
  pub authority : Option String
  pub host_header : Option String
  pub path_and_query : Option String

-- The call that the service makes next.
pub record Handling (Url : Type 0) : Type 0 where
  pub tunnelled : Bool
  pub upstream_url : Url
  pub passthrough : Bool
  pub event : ProxyTaskEvent

abbrev pub or_default : Option String → String → String
or_default none d = d
or_default (some x) d = x

module _ (u : UrlApi) where
  open u use {Url, parse}

  -- The event is first that of a passthrough task, which is replaced if there are faults.
  events : (passthrough : Bool) → TaskManager → TaskManager × ProxyTaskEvent
  events passthrough m =
      let (m', event) = new_passthrough_event m in
      if passthrough then (m', event) else new_fault_event m'

  pub handle :
      (hosts : List String) (is_connect : Bool) (upstream : String)
      → TaskManager
      → Run (TaskManager × Handling Url)
  unfolding contains events
  handle hosts is_connect upstream m = do
    upstream_host ← get_host u upstream
    let passthrough = not (contains hosts upstream_host)
    upstream_url ← unwrap (parse upstream)
    let made = events passthrough m
    done (
      made.0,
      record {
        tunnelled = is_connect;
        upstream_url = upstream_url;
        passthrough = passthrough;
        event = made.1;
      },
    )

  unfoldable pub serve :
      {F : Type 0} {h : Http}
      → (local_ip : String) → ProxyState F h
      → Incoming
      → TaskManager
      → Run (Result (TaskManager × Handling Url) ProxyError)
  unfolding handle
  serve local_ip state req m =
      elim (determine_upstream local_ip (or_default req.scheme "http") req.authority req.host_header
        (or_default req.path_and_query "/") state.stealth) [
          | err e ↦ done (err e)
          | ok upstream ↦ do
            handled ← handle state.upstream_hosts req.is_connect upstream m
            done (ok handled)
        ]
