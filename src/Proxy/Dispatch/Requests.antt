-- ===== src/Proxy/Dispatch/Requests.antt =====
-- Requests by what names their target, and where they go.
use Prim.Native.String.{◌++◌}
use lueur.Prelude.{
  String, str_eq, ℕ, ◌+◌, ◌%◌, ◌^◌, ◌≡◌, refl, ap, ◌∙◌, ◌⊎◌, inl, inr, Bool, true, false, not, ◌&&◌,
  none, some, List, [], ◌∷◌, Result, sym, ok, done, if◌then◌else◌, All,
}
use mathlib.Core.Path.{subst}
use mathlib.Core.List.{◌++◌ as append}
use lueur.Prelude.Float.{Float}
use lueur.Errors.{ProxyError}
use lueur.Event.{TaskManager, fault_task, passthrough_task}
use lueur.Plugin.{Http}
use lueur.Upstream.{UrlApi, with_scheme}
use lueur.Upstream.Laws.{get_host-parts}
use lueur.Scenario.Items.{ScenarioItem}
use lueur.Scenario.Execute.{AppState, execute_item}
use lueur.Reporting.Items.{ReportItemResult, ReportItemMetrics}
use lueur.Proxy.Target.{determine_upstream}
use lueur.Proxy.Target.Laws.{no_colon, determine_upstream-authority, determine_upstream-host}
use lueur.Proxy.Dispatch.{or_default, ProxyState, contains, Incoming, serve}
use lueur.Proxy.Dispatch.Laws.{serve_lem}
use lueur.Proxy.Dispatch.Hosts.{Known, execute_item-Known}

abbrev scheme_by : (port : String) → String
scheme_by port = if str_eq port "443" then "https" else "http"

-- The text of the URL that a request asks for. An authority is kept, and its port, if it has one,
-- chooses the scheme. A Host header without an authority has its port made explicit, and in stealth
-- mode "localhost" stands for the address of this machine.
abbrev pub Asks : (local_ip : String) (stealth : Bool) → Incoming → (text : String) → Type 0
Asks local_ip stealth req text =
    let scheme = or_default req.scheme "http" in
    let path = or_default req.path_and_query "/" in
    ((name : String) × (no_colon name ≡ true)
      × (req.authority ≡ some name)
      × (text ≡ scheme ++ "://" ++ name ++ path))
    ⊎ ((name : String) × (port : String) × (no_colon name ≡ true)
        × (req.authority ≡ some (name ++ ":" ++ port))
        × (text ≡ scheme_by port ++ "://" ++ (name ++ ":" ++ port) ++ path))
    ⊎ ((name : String) × (no_colon name ≡ true)
        × (req.authority ≡ none)
        × (req.host_header ≡ some name)
        × (text
            ≡ scheme
              ++ "://"
              ++ (if stealth && str_eq name "localhost" then local_ip else name)
              ++ ":"
              ++ (if str_eq scheme "https" then "443" else "80")
              ++ path))
    ⊎ ((name : String) × (port : String) × (no_colon name ≡ true)
        × (req.authority ≡ none)
        × (req.host_header ≡ some (name ++ ":" ++ port))
        × (text
            ≡ scheme_by port
              ++ "://"
              ++ (if stealth && str_eq name "localhost" then local_ip else name)
              ++ ":"
              ++ (if str_eq port "" then "80" else port)
              ++ path))

determined :
    (local_ip : String) (stealth : Bool) (req : Incoming) (text : String)
    → Asks local_ip stealth req text
    → determine_upstream local_ip
        (or_default req.scheme "http")
        req.authority
        req.host_header
        (or_default req.path_and_query "/")
        stealth
      ≡ ok text
determined local_ip stealth req text (inl (name, plain, auth, same)) =
    rw (auth, same)
      (determine_upstream-authority local_ip (or_default req.scheme "http") name ""
        (or_default req.path_and_query "/") req.host_header stealth plain).0
determined local_ip stealth req text (inr (inl (name, port, plain, auth, same))) =
    rw (auth, same)
      (determine_upstream-authority local_ip (or_default req.scheme "http") name port
        (or_default req.path_and_query "/") req.host_header stealth plain).1
determined local_ip stealth req text (inr (inr (inl (name, plain, auth, header, same)))) =
    rw (auth, header, same)
      (determine_upstream-host local_ip (or_default req.scheme "http") name ""
        (or_default req.path_and_query "/") stealth plain).1
determined local_ip stealth req text (inr (inr (inr (name, port, plain, auth, header, same)))) =
    rw (auth, header, same)
      (determine_upstream-host local_ip (or_default req.scheme "http") name port
        (or_default req.path_and_query "/") stealth plain).0

module _ (u : UrlApi) where
  open u use {Url, parse, host_str, port_or_known_default, show}

  -- A request whose authority or Host header gives the text of a URL (`Asks`), which can be parsed
  -- and has a host and a known port, goes to that URL. Its faults are injected exactly if this host
  -- and this port are listed. Then it has the event of a fault task, and the number after
  -- the manager's counter, that of the passthrough task that is given up; else it has a
  -- passthrough task, with the counter as its number.
  pub serve-Asks :
      {F : Type 0} {h : Http} (local_ip : String) (state : ProxyState F h) (req : Incoming)
      (m : TaskManager) (text name : String) (url : Url) (port : ℕ)
      → Asks local_ip state.stealth req text
      → parse text ≡ some url
      → host_str url ≡ some name
      → port_or_known_default url ≡ some port
      → serve u local_ip state req m
        ≡ done (
            ok (
              (if contains state.upstream_hosts (name ++ ":" ++ show port)
                  then record { counter = ((m.counter + 1) % 2 ^ 64 + 1) % 2 ^ 64 }
                  else record { counter = (m.counter + 1) % 2 ^ 64 }),
              record {
                tunnelled = req.is_connect;
                upstream_url = url;
                passthrough = not (contains state.upstream_hosts (name ++ ":" ++ show port));
                event =
                    if contains state.upstream_hosts (name ++ ":" ++ show port)
                    then fault_task ((m.counter + 1) % 2 ^ 64)
                    else passthrough_task m.counter;
              },
            ))
  serve-Asks local_ip state req m text name url port asks parsed named known =
      serve_lem u local_ip state req text (name ++ ":" ++ show port) url m
        (determined local_ip state.stealth req text asks)
        (get_host-parts u text name url port parsed named known) parsed

  -- An element of a list has what all have.
  at :
      (P : String → Type 0) (before : List String) (x : String) (later : List String)
      → All P (append before (x ∷ later))
      → P x
  at P [] x later (p, rest) = p
  at P (y ∷ ys) x later (p, rest) = at P ys x later rest

  -- After a scenario item ran, a request for the host and the port of any of its upstreams, as the
  -- parser of URLs gives both for the upstream and for the URL of the request, has its faults injected:
  -- it is not passed through, and has the event of a fault task. This is so for every proxy that has
  -- taken over the hosts that the item set.
  pub execute_item-faulted :
      {h : Http} (fl : Float) (to_lowercase : String → String) (show_error : ProxyError → String)
      (request : AppState fl.F → Result (ReportItemMetrics fl.F) ProxyError)
      (item : ScenarioItem fl.F) (app : AppState fl.F) (result : ReportItemResult fl.F)
      (before : List String) (upstream : String) (later : List String) (local_ip : String)
      (state : ProxyState fl.F h) (req : Incoming) (m : TaskManager) (text : String)
      (asked url : Url)
      → execute_item fl u to_lowercase show_error request item ≡ done (app, result)
      → item.context.upstreams ≡ append before (upstream ∷ later)
      → state.upstream_hosts ≡ app.upstream_hosts
      → Asks local_ip state.stealth req text
      → parse text ≡ some asked
      → parse (with_scheme u upstream) ≡ some url
      → host_str asked ≡ host_str url
      → port_or_known_default asked ≡ port_or_known_default url
      → (m' : TaskManager) × (serve u local_ip state req m
          ≡ done (
              ok (
                m',
                record {
                  tunnelled = req.is_connect;
                  upstream_url = asked;
                  passthrough = false;
                  event = fault_task ((m.counter + 1) % 2 ^ 64);
                },
              )))
  execute_item-faulted fl to_lowercase show_error request item app result before upstream later
        local_ip state req m text asked url ran given taken asks parsed known same_host same_port =
      let all = execute_item-Known u fl to_lowercase show_error request item app result ran in
      let (url', name, port, parsed', named, ported, listed) =
        at (Known u app.upstream_hosts) before upstream later
          (subst (λ (hs : List String). All (Known u app.upstream_hosts) hs) given all) in
      let same : some url' ≡ some url = sym parsed' ∙ known in
      let served =
        serve-Asks local_ip state req m text name asked port asks parsed
          (same_host ∙ cc (same, named)) (same_port ∙ cc (same, ported)) in
      let on : contains state.upstream_hosts (name ++ ":" ++ show port) ≡ true =
        ap (λ (hs : List String). contains hs (name ++ ":" ++ show port)) taken ∙ listed in
      (record { counter = ((m.counter + 1) % 2 ^ 64 + 1) % 2 ^ 64 }, served ∙ rw on refl)
