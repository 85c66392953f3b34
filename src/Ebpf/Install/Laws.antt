-- ===== src/Ebpf/Install/Laws.antt =====
-- Which ports the programs take for upstream ports.
use lueur.Prelude.{
  unwrap_ok, String, ℕ, ◌%◌, ◌^◌, ◌<◌, ◌≡◌, ap, ◌∙◌, ◌==◌, Bool, false, ◌||◌, Option, some, List,
  [], ◌∷◌, Result, ok, Run, done, bind_done, unwrap_ok-done, arith, Option-cases, inl, inr,
}
use lueur.Upstream.{UrlApi, UpstreamError, parse_host_and_port}
use lueur.Nic.{ProxyEbpfConfig}
use lueur.Ebpf.{ProxyConfig, from_be}
use lueur.Ebpf.Install.{to_be16, to_be32, PortMap, ebpf_config, fill, install}

to_be16-same : (a b : ℕ) → a < 65_536 → b < 65_536 → (to_be16 a == to_be16 b) ≡ (a == b)
to_be16-same a b h h' = ground arith

-- Whether a host was read with this port.
abbrev pub has_port : Run (Result (String × ℕ) UpstreamError) → ℕ → Bool
has_port (done (ok hp)) port = hp.1 == port
has_port _ port = false

module _ (u : UrlApi) where
  abbrev pub declares : List String → ℕ → Bool
  declares [] port = false
  declares (host ∷ hosts) port = has_port (parse_host_and_port u host) port || declares hosts port

  -- A port of a URL has 16 bits.
  abbrev pub Ports16 : Type 0
  Ports16 =
      (host name : String) (port : ℕ)
      → parse_host_and_port u host ≡ done (ok (name, port))
      → port < 65_536

  module _ (p : PortMap) where
    open p use {M, contains, insert}

    fill-contains :
        (hosts : List String) (m m' : M) (port : ℕ)
        → Ports16
        → port < 65_536
        → fill u p hosts m ≡ done (some m')
        → contains m' (to_be16 port) ≡ (declares hosts port || contains m (to_be16 port))
    unfolding fill
    fill-contains [] m m' port w h e = ground arith
    fill-contains (host ∷ hosts) m m' port w h e =
        let (parsed, e1, e2) = bind_done (unwrap_ok (parse_host_and_port u host)) _ (some m') e in
        let e3 = unwrap_ok-done (parse_host_and_port u host) parsed e1 in
        elim (Option-cases (insert (to_be16 parsed.1) m)) [
          | inl full ↦ absurd (ground arith)
          | inr (next, i) ↦ ground (
            arith,
            fill-contains hosts next m' port w h (ground arith),
            p.contains-insert (to_be16 parsed.1) (to_be16 port) m next i,
            to_be16-same parsed.1 port (w host parsed.0 parsed.1 e3) h,
            e3,
          )
        ]

    from_be-config :
        (c : ProxyEbpfConfig) (config : ProxyConfig)
        → config.proxy_ip ≡ to_be32 c.proxy_ip
        → from_be config.proxy_ip ≡ c.proxy_ip % 2 ^ 32
    unfolding from_be
    from_be-config c config e = ground arith

    -- When the maps are filled, a packet's destination port is taken for an upstream port exactly if
    -- some declared host has that port, whatever the host is. The entry for the proxy holds its address, index and port
    -- in network order.
    pub install-ports :
        (c : ProxyEbpfConfig) (hosts : List String) (config : ProxyConfig) (m : M) (port : ℕ)
        → ((host name : String) (n : ℕ)
            → parse_host_and_port u host ≡ done (ok (name, n))
            → n < 65_536)
        → port < 65_536
        → install u p c hosts ≡ done (some (config, m))
        → (contains m (to_be16 port) ≡ declares hosts port)
          × (config.proxy_port ≡ to_be16 c.proxy_port)
          × (from_be config.proxy_ip ≡ c.proxy_ip % 2 ^ 32)
    unfolding install ebpf_config
    install-ports c hosts config m port w h e =
        let (filled, e1, e2) = bind_done (fill u p hosts p.empty) _ (some (config, m)) e in
        elim (Option-cases filled) [
          | inl full ↦ absurd (ground arith)
          | inr (m', f) ↦
              let same : Path (Option (ProxyConfig × M)) (some (ebpf_config c, m'))
                  (some (config, m)) =
                ground arith in
              (
                ground (
                  arith,
                  fill-contains hosts p.empty m' port w h (e1 ∙ ap (λ (o : Option M). done o) f),
                  p.contains-empty (to_be16 port),
                ),
                ground arith,
                from_be-config c config (ground arith),
              )
        ]
