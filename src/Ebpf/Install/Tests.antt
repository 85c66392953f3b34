-- ===== src/Ebpf/Install/Tests.antt =====
-- The maps of a proxy in front of a shop.
use lueur.Prelude.{ℕ, ◌==◌, ◌≡◌, refl, Bool, false, ◌||◌, some, List, [], ◌∷◌, done, arith}
use lueur.Upstream.{parse_host_and_port}
use lueur.Upstream.Fixed.{shop}
use lueur.Nic.{ProxyEbpfConfig}
use lueur.Ebpf.{ProxyConfig}
use lueur.Ebpf.Install.{PortMap, install}

abbrev member : List ℕ → ℕ → Bool
member [] key = false
member (k ∷ ks) key = k == key || member ks key

-- A map that is never full.
abbrev ports : PortMap
ports = record {
  M = List ℕ;
  empty = [];
  insert = λ key m. some (key ∷ m);
  contains = member;
  contains-empty = λ key. refl;
  contains-insert = λ key other m m' e. ground arith;
}

abbrev nic : ProxyEbpfConfig
nic = record {
  proxy_ip = 2_130_706_433;
  proxy_port = 8080;
  proxy_ifindex = 1;
  ebpf_ifindex = 1;
  ebpf_ifname = "lo";
}

abbrev written : ProxyConfig
written = record { proxy_ip = 16_777_343; proxy_ifindex = 16_777_216; proxy_port = 36_895 }

installed : install shop ports nic ("http://shop" ∷ []) ≡ done (some (written, 20_480 ∷ []))
unfolding install parse_host_and_port
installed = refl
