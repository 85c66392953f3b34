-- ===== src/Proxy/Target.antt =====
-- `determine_upstream` and `parse_domain_with_scheme` of lueur-cli/src/proxy/mod.rs.
pub mod Laws
use Prim.Native.Char.{Char, code}
use Prim.Native.String.{◌++◌}
use lueur.Prelude.{
  String, str_eq, ℕ, ◌==◌, Bool, true, false, ◌&&◌, Option, none, some, Result, ok, err,
  if◌then◌else◌,
}
use lueur.Errors.{ProxyError, invalid_request}

-- `str::split_once(':')`
unfoldable pub split_once : String → Option (String × String)
split_once String.[] = none
split_once (String.◌∷◌ c s) = if code c == b':' then some ("", s) else elim (split_once s) [
  | none ↦ none
  | some (before, after) ↦ some (String.◌∷◌ c before, after)
]

-- The scheme that the port of an authority implies.
scheme_of : (scheme authority : String) → String
unfolding split_once
scheme_of scheme authority = elim (split_once authority) [
  | none ↦ scheme
  | some (_, port_str) ↦ if str_eq port_str "443" then "https" else "http"
]

default_port : String → String
default_port scheme = if str_eq scheme "https" then "443" else "80"

unfoldable pub parse_domain_with_scheme : (scheme domain : String) → String × String
unfolding split_once default_port
parse_domain_with_scheme scheme domain = elim (split_once domain) [
  | none ↦ (domain, default_port scheme)
  | some (host, port_str) ↦ (host, if str_eq port_str "" then default_port scheme else port_str)
]

-- `local_ip` is what `map_localhost_to_nic` returns.
map_host : (local_ip : String) (stealth : Bool) → String → String
map_host local_ip stealth host = if stealth && str_eq host "localhost" then local_ip else host

from_host : (local_ip scheme path : String) (stealth : Bool) → String × String → String
unfolding map_host
from_host local_ip scheme path stealth (host, port) =
    scheme ++ "://" ++ map_host local_ip stealth host ++ ":" ++ port ++ path

unfoldable pub determine_upstream :
    (local_ip scheme : String) (authority host_header : Option String) (path : String)
    (stealth : Bool)
    → Result String ProxyError
unfolding scheme_of parse_domain_with_scheme from_host
determine_upstream local_ip scheme (some auth) host_header path stealth =
    ok (scheme_of scheme auth ++ "://" ++ auth ++ path)
determine_upstream local_ip scheme none (some host_str) path stealth =
    let scheme' = scheme_of scheme host_str in
    ok (from_host local_ip scheme' path stealth (parse_domain_with_scheme scheme' host_str))
determine_upstream local_ip scheme none none path stealth =
    err (invalid_request "Unable to determine upstream target")
