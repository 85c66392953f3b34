-- ===== src/Proxy/Target/Laws.antt =====
-- What an upstream is made of.
use Prim.Native.Char.{code}
use Prim.Native.String.{◌++◌}
use lueur.Prelude.{
  String, str_eq, eq_iff, ◌==◌, ◌≡◌, refl, ◌∙◌, ap, Bool, true, not, ◌&&◌, Option, none, some, ok,
  arith, if◌then◌else◌, Bool-cases, inl, inr,
}
use text.Mathlib.TextLemmas.{nil-append, cons-append}
use lueur.Proxy.Target.{
  split_once, scheme_of, default_port, parse_domain_with_scheme, determine_upstream,
}

abbrev pub no_colon : String → Bool
no_colon String.[] = true
no_colon (String.◌∷◌ c s) = not (code c == b':') && no_colon s

colon-append : (rest : String) → ":" ++ rest ≡ String.◌∷◌ ":" rest
colon-append rest =
    cons-append ":" "" rest ∙ ap (λ (t : String). String.◌∷◌ ":" t) (nil-append rest)

split_once-append :
    (host rest : String)
    → no_colon host ≡ true
    → split_once (host ++ ":" ++ rest) ≡ some (host, rest)
unfolding split_once
split_once-append String.[] rest h = rw nil-append (rw (colon-append rest) refl)
split_once-append (String.◌∷◌ c s) rest h =
    rw cons-append (ground (arith, split_once-append s rest))

split_once-none : (host : String) → no_colon host ≡ true → split_once host ≡ none
unfolding split_once
split_once-none String.[] h = refl
split_once-none (String.◌∷◌ c s) h = ground (arith, split_once-none s)

scheme_of-colon :
    (scheme host port : String)
    → no_colon host ≡ true
    → scheme_of scheme (host ++ ":" ++ port) ≡ (if str_eq port "443" then "https" else "http")
unfolding scheme_of
scheme_of-colon scheme host port h = rw (split_once-append host port h, scheme_of) refl

parse_domain-colon :
    (scheme host port : String)
    → no_colon host ≡ true
    → parse_domain_with_scheme scheme (host ++ ":" ++ port)
      ≡ (host, if str_eq port "" then default_port scheme else port)
unfolding parse_domain_with_scheme
parse_domain-colon scheme host port h =
    rw (split_once-append host port h, parse_domain_with_scheme) refl

scheme_of-plain : (scheme host : String) → no_colon host ≡ true → scheme_of scheme host ≡ scheme
unfolding scheme_of
scheme_of-plain scheme host h = rw (split_once-none host h, scheme_of) refl

parse_domain-plain :
    (scheme host : String)
    → no_colon host ≡ true
    → parse_domain_with_scheme scheme host ≡ (host, if str_eq scheme "https" then "443" else "80")
unfolding parse_domain_with_scheme default_port
parse_domain-plain scheme host h = rw (split_once-none host h, parse_domain_with_scheme) refl

-- An empty port is not "443".
port-colon :
    (port : String)
    → (if str_eq port ""
        then default_port (if str_eq port "443" then "https" else "http")
        else port)
      ≡ (if str_eq port "" then "80" else port)
unfolding default_port
port-colon port = elim (Bool-cases (str_eq port "")) [
  | inl empty ↦ rw empty (rw ((eq_iff port "").0 empty) refl)
  | inr other ↦ rw other refl
]

-- An authority is kept. Its port, if it has one, chooses the scheme.
pub determine_upstream-authority :
    (local_ip scheme name port path : String) (header : Option String) (stealth : Bool)
    → no_colon name ≡ true
    → (determine_upstream local_ip scheme (some name) header path stealth
        ≡ ok (scheme ++ "://" ++ name ++ path))
      × (determine_upstream local_ip scheme (some (name ++ ":" ++ port)) header path stealth
          ≡ ok (
              (if str_eq port "443" then "https" else "http")
              ++ "://"
              ++ (name ++ ":" ++ port)
              ++ path))
unfolding determine_upstream
determine_upstream-authority local_ip scheme name port path header stealth h =
    (rw (scheme_of-plain scheme name h) refl, rw (scheme_of-colon scheme name port h) refl)

-- A request without an authority goes to its Host header. Where that is a host, a colon and a port,
-- the port is kept, or is 80 if it is empty, and the scheme is https exactly for the port "443",
-- whatever the request's scheme was. Where it has no colon, the scheme is kept and chooses the port.
-- Only a host that is "localhost" is replaced, and only in stealth mode.
pub determine_upstream-host :
    (local_ip scheme host port path : String) (stealth : Bool)
    → no_colon host ≡ true
    → (determine_upstream local_ip scheme none (some (host ++ ":" ++ port)) path stealth
        ≡ ok (
            (if str_eq port "443" then "https" else "http")
            ++ "://"
            ++ (if stealth && str_eq host "localhost" then local_ip else host)
            ++ ":"
            ++ (if str_eq port "" then "80" else port)
            ++ path))
      × (determine_upstream local_ip scheme none (some host) path stealth
          ≡ ok (
              scheme
              ++ "://"
              ++ (if stealth && str_eq host "localhost" then local_ip else host)
              ++ ":"
              ++ (if str_eq scheme "https" then "443" else "80")
              ++ path))
unfolding determine_upstream
determine_upstream-host local_ip scheme host port path stealth h = (
  rw (scheme_of-colon scheme host port h) (
      rw (parse_domain-colon (if str_eq port "443" then "https" else "http") host port h)
        (rw (port-colon port) refl)),
  rw (scheme_of-plain scheme host h) (rw (parse_domain-plain scheme host h) refl),
)
