-- ===== src/Proxy/Dispatch/Laws.antt =====
-- Which requests have their faults injected.
use lueur.Prelude.{
  String, ◌+◌, ◌%◌, ◌^◌, ◌≡◌, refl, Bool, not, some, List, ok, done, arith, if◌then◌else◌,
}
use lueur.Event.{
  TaskManager, fault_task, passthrough_task, new_fault_event, new_passthrough_event, next_id,
}
use lueur.Plugin.{Http}
use lueur.Upstream.{UrlApi, get_host}
use lueur.Proxy.Target.{determine_upstream}
use lueur.Proxy.Dispatch.{or_default, ProxyState, contains, Incoming, handle, serve}

module _ (u : UrlApi) where
  open u use {Url, parse}

  handle_lem :
      (hosts : List String) (is_connect : Bool) (upstream host : String) (url : Url)
      (m : TaskManager)
      → get_host u upstream ≡ done host
      → parse upstream ≡ some url
      → handle u hosts is_connect upstream m
        ≡ done (
          (if contains hosts host
              then record { counter = ((m.counter + 1) % 2 ^ 64 + 1) % 2 ^ 64 }
              else record { counter = (m.counter + 1) % 2 ^ 64 }),
          record {
            tunnelled = is_connect;
            upstream_url = url;
            passthrough = not (contains hosts host);
            event =
                if contains hosts host
                then fault_task ((m.counter + 1) % 2 ^ 64)
                else passthrough_task m.counter;
          },
        )
  unfolding handle new_fault_event new_passthrough_event next_id
  handle_lem hosts is_connect upstream host url m g p = ground arith

  -- A request whose upstream is determined goes to the URL that `upstream` parses to. Its faults are injected
  -- exactly if the host and port of that URL are listed. Then it has the event of a fault task, and
  -- the number after the manager's counter, that of the passthrough task that is given up; else it
  -- has a passthrough task, with the counter as its number.
  pub serve_lem :
      {F : Type 0} {h : Http} (local_ip : String) (state : ProxyState F h) (req : Incoming)
      (upstream host : String) (url : Url) (m : TaskManager)
      → determine_upstream local_ip
          (or_default req.scheme "http")
          req.authority
          req.host_header
          (or_default req.path_and_query "/")
          state.stealth
        ≡ ok upstream
      → get_host u upstream ≡ done host
      → parse upstream ≡ some url
      → serve u local_ip state req m
        ≡ done (
            ok (
              (if contains state.upstream_hosts host
                  then record { counter = ((m.counter + 1) % 2 ^ 64 + 1) % 2 ^ 64 }
                  else record { counter = (m.counter + 1) % 2 ^ 64 }),
              record {
                tunnelled = req.is_connect;
                upstream_url = url;
                passthrough = not (contains state.upstream_hosts host);
                event =
                    if contains state.upstream_hosts host
                    then fault_task ((m.counter + 1) % 2 ^ 64)
                    else passthrough_task m.counter;
              },
            ))
  unfolding serve
  serve_lem local_ip state req upstream host url m d g p =
      rw (d, serve)
        (rw (handle_lem state.upstream_hosts req.is_connect upstream host url m g p) refl)
