-- ===== src/Proxy/Dispatch/Hosts.antt =====
-- The hosts that a scenario item gives the proxy, and those that the proxy looks up.
use Prim.Native.String.{◌++◌}
use lueur.Prelude.{
  unwrap_ok, String, ℕ, some, ap, ◌∙◌, eq_iff, ◌≡◌, refl, true, List, [], ◌∷◌, Result, Run, done,
  panic, ◌>>=◌, bind_done, unwrap_ok-done, arith, All,
}
use mathlib.Core.Path.{subst}
use lueur.Errors.{ProxyError}
use lueur.Upstream.{UrlApi, upstream_to_addr, with_scheme}
use lueur.Upstream.Laws.{upstream_to_addr-parts}
use lueur.Scenario.Items.{ScenarioItem}
use lueur.Scenario.Execute.{AppState, collect, execute_item, report_of}
use lueur.Types.FaultConfiguration.{build}
use lueur.Reporting.Items.{ReportItemResult, ReportItemMetrics}
use lueur.Prelude.Float.{Float}
use lueur.Proxy.Dispatch.{contains}

contains-head : (h : String) (hs : List String) → contains (h ∷ hs) h ≡ true
unfolding contains
contains-head h hs = ground (arith, eq_iff h h)

contains-tail :
    (h : String) (hs : List String) (x : String) → contains hs x ≡ true → contains (h ∷ hs) x ≡ true
unfolding contains
contains-tail h hs x e = ground arith

-- Each element of the list gave a member of what was collected.
abbrev Gives : (String → Run String) → List String → String → Type 0
Gives f ys x = (y : String) × (f x ≡ done y) × (contains ys y ≡ true)

Gives-tail :
    (f : String → Run String) (h : String) (ys xs : List String)
    → All (Gives f ys) xs
    → All (Gives f (h ∷ ys)) xs
Gives-tail f h ys [] a = tt
Gives-tail f h ys (x ∷ xs) ((y, e, m), a) = ((y, e, contains-tail h ys y m), Gives-tail f h ys xs a)

-- What both steps gave, where a list was collected.
both_done :
    (r : Run String) (k : Run (List String)) (ys : List String)
    → (r >>= (λ b. k >>= (λ bs. done (b ∷ bs)))) ≡ done ys
    → (y : String) × (zs : List String) × (r ≡ done y) × (k ≡ done zs) × (y ∷ zs ≡ ys)
both_done panic k ys e = absurd (cc e)
both_done (done y) panic ys e = absurd (cc e)
both_done (done y) (done zs) ys e = (y, zs, refl, refl, cc e)

Gives-head :
    (f : String → Run String) (x y : String) (zs ys xs : List String)
    → f x ≡ done y
    → y ∷ zs ≡ ys
    → All (Gives f zs) xs
    → All (Gives f ys) (x ∷ xs)
Gives-head f x y zs ys xs e same a =
    subst (λ (l : List String). All (Gives f l) (x ∷ xs)) same
      ((y, e, contains-head y zs), Gives-tail f y zs xs a)

collect-Gives :
    (f : String → Run String) (xs ys : List String) → collect f xs ≡ done ys → All (Gives f ys) xs
collect-Gives f [] ys e = tt
collect-Gives f (x ∷ xs) ys e =
    let (y, zs, e1, e2, same) = both_done (f x) (collect f xs) ys e in
    Gives-head f x y zs ys xs e1 same (collect-Gives f xs zs e2)

module _ (u : UrlApi) where
  -- The host and the port of the URL that the text of a host parses to are listed.
  abbrev pub Known : List String → String → Type 0
  Known hosts host =
      (url : u.Url) × (name : String) × (port : ℕ) × (u.parse (with_scheme u host) ≡ some url)
      × (u.host_str url ≡ some name)
      × (u.port_or_known_default url ≡ some port)
      × (contains hosts (name ++ ":" ++ u.show port) ≡ true)

  Gives-Known :
      (hosts xs : List String)
      → All (Gives (λ h. unwrap_ok (upstream_to_addr u h)) hosts) xs
      → All (Known hosts) xs
  Gives-Known hosts [] a = tt
  Gives-Known hosts (x ∷ xs) ((y, e, m), a) =
      let (url, name, port, parsed, named, known, same) =
        upstream_to_addr-parts u x y (unwrap_ok-done (upstream_to_addr u x) y e) in
      (
        (url, name, port, parsed, named, known, ap (contains hosts) same ∙ m),
        Gives-Known hosts xs a,
      )

  pub collect-Known :
      (hosts xs : List String)
      → collect (λ h. unwrap_ok (upstream_to_addr u h)) xs ≡ done hosts
      → All (Known hosts) xs
  collect-Known hosts xs e = Gives-Known hosts xs (collect-Gives _ xs hosts e)

  -- After an item has run, every upstream of it is known.
  pub execute_item-Known :
      (fl : Float) (to_lowercase : String → String) (show_error : ProxyError → String)
      (request : AppState fl.F → Result (ReportItemMetrics fl.F) ProxyError)
      (item : ScenarioItem fl.F) (state : AppState fl.F) (result : ReportItemResult fl.F)
      → execute_item fl u to_lowercase show_error request item ≡ done (state, result)
      → All (Known state.upstream_hosts) item.context.upstreams
  unfolding execute_item
  execute_item-Known fl to_lowercase show_error request item state result e =
      let (hosts, e1, rest) =
        bind_done (collect (λ h. unwrap_ok (upstream_to_addr u h)) item.context.upstreams) _
          (state, result) e in
      let (faults, e2, rest') =
        bind_done (collect (λ f. unwrap_ok (build fl to_lowercase f)) item.context.faults) _
          (state, result) rest in
      let (made, e3, rest'') =
        bind_done
          (report_of fl show_error item
            (request (record { upstream_hosts = hosts; config = record { faults = faults } })))
          _ (state, result) rest' in
      let same : hosts ≡ state.upstream_hosts = cc rest'' in
      subst (λ (hs : List String). All (Known hs) item.context.upstreams) same
        (collect-Known hosts item.context.upstreams e1)
