-- ===== src/Upstream/Laws.antt =====
-- What an address is made of.
use Prim.Native.String.{◌++◌}
use lueur.Prelude.{String, ℕ, ◌≡◌, refl, some, ok, done, arith, Option-cases, inl, inr}
use lueur.Upstream.{UrlApi, upstream_to_addr, get_host, with_scheme, host_and_port}

module _ (u : UrlApi) where
  open u use {Url, parse, host_str, port_or_known_default, show}

  -- An address is the host and the port of the URL that the text parses to.
  pub upstream_to_addr-parts :
      (host addr : String)
      → upstream_to_addr u host ≡ done (ok addr)
      → (url : Url) × (name : String) × (port : ℕ) × (parse (with_scheme u host) ≡ some url)
        × (host_str url ≡ some name)
        × (port_or_known_default url ≡ some port)
        × (name ++ ":" ++ show port ≡ addr)
  unfolding upstream_to_addr host_and_port
  upstream_to_addr-parts host addr e = elim (Option-cases (parse (with_scheme u host))) [
    | inl unparsed ↦ absurd (ground arith)
    | inr (url, parsed) ↦ elim (Option-cases (host_str url)) [
      | inl nameless ↦ absurd (ground arith)
      | inr (name, named) ↦ elim (Option-cases (port_or_known_default url)) [
        | inl portless ↦ absurd (ground arith)
        | inr (port, known) ↦ (url, name, port, parsed, named, known, ground arith)
      ]
    ]
  ]

  -- A text that parses is looked up by the host and the port of its URL.
  pub get_host-parts :
      (upstream name : String) (url : Url) (port : ℕ)
      → parse upstream ≡ some url
      → host_str url ≡ some name
      → port_or_known_default url ≡ some port
      → get_host u upstream ≡ done (name ++ ":" ++ show port)
  unfolding get_host
  get_host-parts upstream name url port parsed named known = rw (parsed, named, known) refl
