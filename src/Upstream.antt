-- ===== src/Upstream.antt =====
-- Hosts and URLs as text: `upstream_to_addr` of lueur-cli/src/scenario.rs and main.rs,
-- `parse_host_and_port` of lueur-cli/src/ebpf.rs and `get_host` of lueur-cli/src/proxy/mod.rs. The
-- `url` crate is a parameter.
pub mod Laws
pub mod Fixed
use Prim.Native.String.{◌++◌}
use lueur.Prelude.{
  String, ℕ, Bool, Option, none, some, Result, ok, err, Run, done, ◌>>=◌, unwrap, if◌then◌else◌,
}

-- `Url` of the `url` crate; `show` prints a port, and `contains` is `str::contains`.
pub record UrlApi : Type 1 where
  pub Url : Type 0
  pub parse : String → Option Url
  pub host_str : Url → Option String
  pub port_or_known_default : Url → Option ℕ
  pub show : ℕ → String
  pub contains : (text part : String) → Bool

-- An error of `upstream_to_addr`: the address does not parse, or has no host.
pub data UpstreamError : Type 0 where
  parse_error missing_host : UpstreamError

abbrev pub map_ok :
    {A B : Type 0} → (A → B) → Run (Result A UpstreamError) → Run (Result B UpstreamError)
map_ok f r = do x ← r; elim x [ ok a ↦ done (ok (f a)) | err e ↦ done (err e) ]

module _ (u : UrlApi) where
  open u use {Url, parse, host_str, port_or_known_default, show, contains}

  host_and_port : Url → Run (Result (String × ℕ) UpstreamError)
  host_and_port url = elim (host_str url) [
    | none ↦ done (err missing_host)
    | some host ↦ do port ← unwrap (port_or_known_default url); done (ok (host, port))
  ]

  abbrev pub with_scheme : String → String
  with_scheme host = if contains host "://" then host else "scheme://" ++ host

  unfoldable pub parse_host_and_port : String → Run (Result (String × ℕ) UpstreamError)
  unfolding host_and_port
  parse_host_and_port host = elim (parse (with_scheme host)) [
    | none ↦ done (err parse_error)
    | some url ↦ host_and_port url
  ]

  abbrev pub authority : String × ℕ → String
  authority hp = hp.0 ++ ":" ++ show hp.1

  unfoldable pub upstream_to_addr : String → Run (Result String UpstreamError)
  unfolding host_and_port
  upstream_to_addr host = elim (parse (with_scheme host)) [
    | none ↦ done (err parse_error)
    | some url ↦ map_ok authority (host_and_port url)
  ]

  -- Each step is unwrapped.
  unfoldable pub get_host : String → Run String
  get_host upstream_url = do
    url ← unwrap (parse upstream_url)
    host ← unwrap (host_str url)
    port ← unwrap (port_or_known_default url)
    done (host ++ ":" ++ show port)
