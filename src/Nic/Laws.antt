-- ===== src/Nic/Laws.antt =====
-- What a configuration that is returned satisfies.
use lueur.Prelude.{
  String, str_eq, eq_iff, ℕ, ◌≡◌, refl, ◌≢◌, inl, inr, true, false, not, ◌&&◌, sym, ◌∙◌, Option,
  none, some, List, ok, Bool-cases,
}
use mathlib.Core.Path.{subst}
use mathlib.Core.Bool.{false≢true}
use lueur.Nic.{
  IpAddr, v4, stage_both, stage_address, stage_interface, stage_none, ProxyEbpfConfig, Machine,
  Interfaces, keep_v4, is_loopback, localhost, determine_proxy_and_ebpf_config, choose, both_given,
  address_given, interface_given, none_given, both_on_loopback, both_on_nic, address_on_loopback,
  address_on_nic,
}
use lueur.Nic.Inversion.{
  >>=-eq-ok, Listed, and-not, find-Listed, first_index-ok, get_ifindex-ok, if-else, if-then,
  named_index-ok, ok_injective, ok_or-eq-ok, parse_proxy-ok, proxy_index-ok, str_eq-symm_false,
}

-- Where the proxy listens, by the address argument.
abbrev pub AddressOf : Machine → Option String → ProxyEbpfConfig → Type 0
AddressOf machine none c = (c.proxy_ip ≡ localhost) × (c.proxy_port ≡ 8080)
AddressOf machine (some address) c =
    machine.parse_socket_addr address ≡ ok (v4 c.proxy_ip, c.proxy_port)

-- `proxy_name` is the proxy's interface, and `ebpf_ip` the address of the eBPF interface.
pub record IsConsistent (machine : Machine) (ifaces : Interfaces) (address name : Option String)
    (proxy_name : String) (ebpf_ip : ℕ) (c : ProxyEbpfConfig) : Type 0 where
  pub at : AddressOf machine address c
  pub proxy_listed : Listed proxy_name c.proxy_ip ifaces
  pub proxy_index : machine.if_nametoindex proxy_name ≡ ok c.proxy_ifindex
  pub ebpf_listed : Listed c.ebpf_ifname ebpf_ip ifaces
  pub ebpf_index : machine.if_nametoindex c.ebpf_ifname ≡ ok c.ebpf_ifindex
  pub as_named : (n : String) → name ≡ some n → c.ebpf_ifname ≡ n
  pub off_loopback : name ≡ none → is_loopback ebpf_ip ≡ false
  pub apart : name ≡ none → is_loopback c.proxy_ip ≡ false → c.ebpf_ifname ≢ proxy_name

module _ (machine : Machine) where
  open machine use {if_nametoindex, parse_socket_addr}

  -- What `IsConsistent` says, with the two witnesses.
  abbrev pub Consistent : Interfaces → Option String → Option String → ProxyEbpfConfig → Type 0
  Consistent ifaces address name c =
      (proxy_name : String) × (ebpf_ip : ℕ) × IsConsistent machine ifaces address name proxy_name
        ebpf_ip c

  both_on_loopback-Consistent :
      (ifaces : Interfaces) (proxy : ℕ × ℕ) (address name : String) {c : ProxyEbpfConfig}
      → parse_socket_addr address ≡ ok (v4 proxy.0, proxy.1)
      → both_on_loopback machine ifaces proxy name ≡ ok c
      → Consistent ifaces (some address) (some name) c
  unfolding both_on_loopback
  both_on_loopback-Consistent ifaces proxy address name parsed e =
      let (ebpf, e0, e1) = >>=-eq-ok _ _ e in
      let (on, e2, e3) = >>=-eq-ok _ _ e1 in
      let (ip, ebpf_listed, ebpf_index) = named_index-ok machine ifaces name e0 in
      let (proxy_listed, index) = proxy_index-ok machine ifaces proxy.0 e2 in
      subst (Consistent ifaces (some address) (some name)) (ok_injective e3) (
        on.0,
        ip,
        record {
          at = parsed;
          proxy_listed = proxy_listed;
          proxy_index = index;
          ebpf_listed = ebpf_listed;
          ebpf_index = ebpf_index;
          as_named = λ n same. cc;
          off_loopback = λ none_named. cc;
          apart = λ none_named. cc;
        },
      )

  both_on_nic-Consistent :
      (ifaces : Interfaces) (proxy : ℕ × ℕ) (address name : String) {c : ProxyEbpfConfig}
      → parse_socket_addr address ≡ ok (v4 proxy.0, proxy.1)
      → both_on_nic machine ifaces proxy name ≡ ok c
      → Consistent ifaces (some address) (some name) c
  unfolding both_on_nic
  both_on_nic-Consistent ifaces proxy address name parsed e =
      let (on, e0, e1) = >>=-eq-ok _ _ e in
      let (iface, found, e2) = >>=-eq-ok _ _ e1 in
      let (idx, e3, e4) = >>=-eq-ok _ _ e2 in
      let (proxy_listed, index) = proxy_index-ok machine ifaces proxy.0 e0 in
      let (listed, test) =
        find-Listed (λ i. str_eq i.0 name) ifaces iface (ok_or-eq-ok _ _ found) in
      let same : iface.0 ≡ name = (eq_iff _ _).0 test in
      subst (Consistent ifaces (some address) (some name)) (ok_injective e4) (
        on.0,
        iface.1,
        record {
          at = parsed;
          proxy_listed = proxy_listed;
          proxy_index = index;
          ebpf_listed = rw same at listed;
          ebpf_index = get_ifindex-ok machine name e3;
          as_named = λ n same. cc;
          off_loopback = λ none_named. cc;
          apart = λ none_named. cc;
        },
      )

  address_on_loopback-Consistent :
      (ifaces : Interfaces) (proxy : ℕ × ℕ) (address : String) {c : ProxyEbpfConfig}
      → is_loopback proxy.0 ≡ true
      → parse_socket_addr address ≡ ok (v4 proxy.0, proxy.1)
      → address_on_loopback machine ifaces proxy ≡ ok c
      → Consistent ifaces (some address) none c
  unfolding address_on_loopback
  address_on_loopback-Consistent ifaces proxy address loop parsed e =
      let (ebpf, e0, e1) = >>=-eq-ok _ _ e in
      let (on, e2, e3) = >>=-eq-ok _ _ e1 in
      let (ip, ebpf_listed, off, ebpf_index) = first_index-ok machine ifaces e0 in
      let (proxy_listed, index) = proxy_index-ok machine ifaces proxy.0 e2 in
      subst (Consistent ifaces (some address) none) (ok_injective e3) (
        on.0,
        ip,
        record {
          at = parsed;
          proxy_listed = proxy_listed;
          proxy_index = index;
          ebpf_listed = ebpf_listed;
          ebpf_index = ebpf_index;
          as_named = λ n same. cc;
          off_loopback = λ _. off;
          apart = λ _ nic. absurd (false≢true (sym nic ∙ loop));
        },
      )

  address_on_nic-Consistent :
      (ifaces : Interfaces) (proxy : ℕ × ℕ) (address : String) {c : ProxyEbpfConfig}
      → parse_socket_addr address ≡ ok (v4 proxy.0, proxy.1)
      → address_on_nic machine ifaces proxy ≡ ok c
      → Consistent ifaces (some address) none c
  unfolding address_on_nic
  address_on_nic-Consistent ifaces proxy address {c} parsed e =
      let (on, e0, e1) = >>=-eq-ok _ _ e in
      let (iface, found, e2) = >>=-eq-ok _ _ e1 in
      let (idx, e3, e4) = >>=-eq-ok _ _ e2 in
      let (proxy_listed, index) = proxy_index-ok machine ifaces proxy.0 e0 in
      let (listed, test) =
        find-Listed (λ i. not (str_eq i.0 on.0) && not (is_loopback i.1)) ifaces iface
          (ok_or-eq-ok _ _ found) in
      let (other, off) = and-not test in
      let e5 = if-else _ _ (str_eq-symm_false iface.0 on.0 other) e4 in
      subst (Consistent ifaces (some address) none) (ok_injective e5) (
        on.0,
        iface.1,
        record {
          at = parsed;
          proxy_listed = proxy_listed;
          proxy_index = index;
          ebpf_listed = listed;
          ebpf_index = get_ifindex-ok machine iface.0 e3;
          as_named = λ n same. cc;
          off_loopback = λ _. off;
          apart = λ _ _ same. false≢true (sym other ∙ (eq_iff _ _).1 same);
        },
      )

  interface_given-Consistent :
      (ifaces : Interfaces) (name : String) {c : ProxyEbpfConfig}
      → interface_given machine ifaces name ≡ ok c
      → Consistent ifaces none (some name) c
  unfolding interface_given
  interface_given-Consistent ifaces name {c} e =
      let (iface, found, e1) = >>=-eq-ok _ _ e in
      let (idx, e2, e3) = >>=-eq-ok _ _ e1 in
      let (on, e4, e5) = >>=-eq-ok _ _ e3 in
      let (proxy_listed, index) = proxy_index-ok machine ifaces localhost e4 in
      let (listed, test) =
        find-Listed (λ i. str_eq i.0 name) ifaces iface (ok_or-eq-ok _ _ found) in
      let same : iface.0 ≡ name = (eq_iff _ _).0 test in
      subst (Consistent ifaces none (some name)) (ok_injective e5) (
        on.0,
        iface.1,
        record {
          at = (refl, refl);
          proxy_listed = proxy_listed;
          proxy_index = index;
          ebpf_listed = rw same at listed;
          ebpf_index = get_ifindex-ok machine name e2;
          as_named = λ n same. cc;
          off_loopback = λ none_named. cc;
          apart = λ none_named. cc;
        },
      )

  none_given-Consistent :
      (ifaces : Interfaces) {c : ProxyEbpfConfig}
      → none_given machine ifaces ≡ ok c
      → Consistent ifaces none none c
  unfolding none_given
  none_given-Consistent ifaces e =
      let (ebpf, e0, e1) = >>=-eq-ok _ _ e in
      let (on, e2, e3) = >>=-eq-ok _ _ e1 in
      let (ip, ebpf_listed, off, ebpf_index) = first_index-ok machine ifaces e0 in
      let (proxy_listed, index) = proxy_index-ok machine ifaces localhost e2 in
      subst (Consistent ifaces none none) (ok_injective e3) (
        on.0,
        ip,
        record {
          at = (refl, refl);
          proxy_listed = proxy_listed;
          proxy_index = index;
          ebpf_listed = ebpf_listed;
          ebpf_index = ebpf_index;
          as_named = λ n same. cc;
          off_loopback = λ _. off;
          apart = λ _ nic. absurd (false≢true (sym nic));
        },
      )

  both_given-Consistent :
      (ifaces : Interfaces) (address name : String) {c : ProxyEbpfConfig}
      → both_given machine ifaces address name ≡ ok c
      → Consistent ifaces (some address) (some name) c
  unfolding both_given
  both_given-Consistent ifaces address name e =
      let (proxy, e0, e1) = >>=-eq-ok _ _ e in
      let parsed = parse_proxy-ok machine address e0 in
      elim (Bool-cases (is_loopback proxy.0)) [
        | inl loop ↦
            both_on_loopback-Consistent ifaces proxy address name parsed (if-then _ _ loop e1)
        | inr nic ↦ both_on_nic-Consistent ifaces proxy address name parsed (if-else _ _ nic e1)
      ]

  address_given-Consistent :
      (ifaces : Interfaces) (address : String) {c : ProxyEbpfConfig}
      → address_given machine ifaces address ≡ ok c
      → Consistent ifaces (some address) none c
  unfolding address_given
  address_given-Consistent ifaces address e =
      let (proxy, e0, e1) = >>=-eq-ok _ _ e in
      let parsed = parse_proxy-ok machine address e0 in
      elim (Bool-cases (is_loopback proxy.0)) [
        | inl loop ↦
            address_on_loopback-Consistent ifaces proxy address loop parsed (if-then _ _ loop e1)
        | inr nic ↦ address_on_nic-Consistent ifaces proxy address parsed (if-else _ _ nic e1)
      ]

  choose-Consistent :
      (ifaces : Interfaces) (address name : Option String) {c : ProxyEbpfConfig}
      → choose machine ifaces address name ≡ ok c
      → Consistent ifaces address name c
  unfolding choose stage_both stage_address stage_interface stage_none
  choose-Consistent ifaces (some address) (some name) e =
      both_given-Consistent ifaces address name e
  choose-Consistent ifaces (some address) none e = address_given-Consistent ifaces address e
  choose-Consistent ifaces none (some name) e = interface_given-Consistent ifaces name e
  choose-Consistent ifaces none none e = none_given-Consistent ifaces e

  -- A configuration that is returned is made of what the machine has: the proxy's address is the one
  -- asked for (127.0.0.1:8080 if none was) and stands on an interface with the given index; the
  -- eBPF interface exists, has the given index, and is the one asked for; if none was, it is not a
  -- loopback interface, nor the proxy's own where the proxy is not on loopback.
  pub determine_proxy_and_ebpf_config-Consistent :
      (ifaces : List (String × IpAddr)) (address name : Option String) (c : ProxyEbpfConfig)
      → machine.list_afinet_netifas ≡ ok ifaces
      → determine_proxy_and_ebpf_config machine address name ≡ ok c
      → Consistent (keep_v4 ifaces) address name c
  unfolding determine_proxy_and_ebpf_config
  determine_proxy_and_ebpf_config-Consistent ifaces address name c listed e =
      choose-Consistent (keep_v4 ifaces) address name (rw listed at e)
