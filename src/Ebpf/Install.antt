-- ===== src/Ebpf/Install.antt =====
-- `install_and_run` of lueur-cli/src/ebpf.rs, once the programs are loaded: how it fills the maps that
-- they read. The maps of the kernel are parameters.
pub mod Laws
mod Tests
use lueur.Prelude.{
  unwrap_ok, String, ℕ, ◌+◌, ◌*◌, ◌/◌, ◌%◌, ◌≡◌, ◌==◌, Bool, false, ◌||◌, Option, none, some, List,
  [], ◌∷◌, Result, ok, err, Run, done, ◌>>=◌,
}
use lueur.Upstream.{UrlApi, parse_host_and_port}
use lueur.Nic.{ProxyEbpfConfig}
use lueur.Ebpf.{ProxyConfig}

-- `u16::to_be` and `u32::to_be` on a machine that puts the low byte first.
abbrev pub to_be16 : ℕ → ℕ
to_be16 n = n % 256 * 256 + n / 256 % 256

abbrev pub to_be32 : ℕ → ℕ
to_be32 n =
    n % 256 * 16_777_216 + n / 256 % 256 * 65_536 + n / 65_536 % 256 * 256 + n / 16_777_216 % 256

-- UPSTREAM_PORTS_MAP, a hash map of the kernel: `insert` fails when it is full.
pub record PortMap : Type 1 where
  pub M : Type 0
  pub empty : M
  pub insert : ℕ → M → Option M
  pub contains : M → ℕ → Bool
  pub contains-empty : (key : ℕ) → contains empty key ≡ false
  pub contains-insert :
      (key other : ℕ) (m m' : M)
      → insert key m ≡ some m'
      → contains m' other ≡ (key == other || contains m other)

-- The entry of PROXY_CONFIG_MAP.
ebpf_config : ProxyEbpfConfig → ProxyConfig
ebpf_config c = record {
  proxy_ip = to_be32 c.proxy_ip;
  proxy_ifindex = to_be32 c.proxy_ifindex;
  proxy_port = to_be16 c.proxy_port;
}

module _ (u : UrlApi) (p : PortMap) where
  open p use {M, empty, insert}

  -- The loop over the hosts; an error is that of the map.
  fill : List String → M → Run (Option M)
  fill [] m = done (some m)
  fill (host ∷ hosts) m = do
    parsed ← unwrap_ok (parse_host_and_port u host)
    elim (insert (to_be16 parsed.1) m) [ none ↦ done none | some m' ↦ fill hosts m' ]

  unfoldable pub install : ProxyEbpfConfig → List String → Run (Option (ProxyConfig × M))
  unfolding ebpf_config fill
  install c upstream_ports = do
    filled ← fill upstream_ports empty
    done (elim filled [ none ↦ none | some m ↦ some (ebpf_config c, m) ])
