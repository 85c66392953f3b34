-- ===== src/Nic.antt =====
-- lueur-cli/src/nic.rs: the proxy's address and the interface of the eBPF programs, from the command
-- line and the machine's interfaces. IPv4 addresses are 32-bit numbers. An error is a constructor
-- with what its message names; its text is `message`.
pub mod Inversion
pub mod Laws
pub mod Errors
mod Tests
use Prim.Native.String.{◌++◌}
use lueur.Prelude.{
  String, str_eq, ℕ, ◌+◌, ◌*◌, ◌/◌, ◌^◌, Bool, true, false, not, ◌&&◌, Option, none, some, List, [],
  ◌∷◌, Result, ok, err, ◌==◌, if◌then◌else◌,
}

pub data IpAddr : Type 0 where
  v4 : ℕ → IpAddr
  v6 : ℕ → IpAddr

pub record ProxyEbpfConfig : Type 0 where
  pub proxy_ip : ℕ
  pub proxy_port : ℕ
  pub proxy_ifindex : ℕ
  pub ebpf_ifindex : ℕ
  pub ebpf_ifname : String

pub data NicError : Type 0 where
  no_interfaces : (cause : String) → NicError
  invalid_proxy_address : (address cause : String) → NicError
  ipv6_unsupported : NicError
  ebpf_interface_not_found : (name : String) → NicError
  proxy_ip_not_found : (ip : ℕ) → NicError
  no_ifindex : (name cause : String) → NicError
  no_non_loopback no_alternative : NicError
  same_interface : (name : String) → NicError
  no_ebpf_ifindex invalid_combination : NicError

-- `show_ip` is the `Display` of `Ipv4Addr`.
unfoldable pub message : (show_ip : ℕ → String) → NicError → String
message show_ip (no_interfaces cause) = "Failed to get network interfaces: " ++ cause
message show_ip (invalid_proxy_address address cause) =
    "Invalid proxy address '" ++ address ++ "': " ++ cause
message show_ip ipv6_unsupported = "IPV6 addresses are not supported"
message show_ip (ebpf_interface_not_found name) =
    "Specified eBPF interface '" ++ name ++ "' not found"
message show_ip (proxy_ip_not_found ip) =
    "Proxy IP address '" ++ show_ip ip ++ "' not found on any interface"
message show_ip (no_ifindex name cause) =
    "Failed to get ifindex for interface '" ++ name ++ "': " ++ cause
message show_ip no_non_loopback = "No non-loopback network interfaces found for eBPF program"
message show_ip no_alternative =
    "No alternative non-loopback network interface found for eBPF program"
message show_ip (same_interface name) =
    "Proxy and eBPF program cannot be bound to the same network interface '" ++ name ++ "'"
message show_ip no_ebpf_ifindex = "Failed to determine eBPF interface index"
message show_ip invalid_combination = "Invalid combination of arguments"

-- The operating system and the address parser: `list_afinet_netifas`, `if_nametoindex`, and
-- `str::parse::<SocketAddr>`.
pub record Machine : Type 0 where
  pub list_afinet_netifas : Result (List (String × IpAddr)) String
  pub if_nametoindex : String → Result ℕ String
  pub parse_socket_addr : String → Result (IpAddr × ℕ) String

infixl 5 ◌>>=◌
abbrev pub ◌>>=◌ : {A B : Type 0} → Result A NicError → (A → Result B NicError) → Result B NicError
err e >>= next = err e
ok value >>= next = next value

abbrev pub ok_or : {A : Type 0} → Option A → NicError → Result A NicError
ok_or none e = err e
ok_or (some a) e = ok a

abbrev pub map_err : {A : Type 0} → Result A String → (String → NicError) → Result A NicError
map_err (ok a) f = ok a
map_err (err e) f = err (f e)

abbrev pub Interfaces : Type 0
Interfaces = List (String × ℕ)

pub keep_v4 : List (String × IpAddr) → Interfaces
keep_v4 [] = []
keep_v4 ((name, v4 ip) ∷ rest) = (name, ip) ∷ keep_v4 rest
keep_v4 ((name, v6 _) ∷ rest) = keep_v4 rest

unfoldable pub find : (String × ℕ → Bool) → Interfaces → Option (String × ℕ)
find test [] = none
find test (iface ∷ rest) = if test iface then some iface else find test rest

-- `Ipv4Addr::is_loopback`: 127.0.0.0/8.
abbrev pub is_loopback : ℕ → Bool
is_loopback ip = ip / 2 ^ 24 == 127

abbrev pub localhost : ℕ
localhost = 127 * 2 ^ 24 + 1

abbrev find_interface_by_ip : Interfaces → ℕ → Option (String × ℕ)
find_interface_by_ip ifaces ip = find (λ iface. iface.1 == ip) ifaces

abbrev find_first_non_loopback : Interfaces → Option (String × ℕ)
find_first_non_loopback ifaces = find (λ iface. not (is_loopback iface.1)) ifaces

abbrev find_interface_by_name : Interfaces → String → Option (String × ℕ)
find_interface_by_name ifaces name = find (λ iface. str_eq iface.0 name) ifaces

-- The search for an eBPF interface beside the proxy's.
abbrev find_alternative : Interfaces → String → Option (String × ℕ)
find_alternative ifaces proxy_name =
    find (λ iface. not (str_eq iface.0 proxy_name) && not (is_loopback iface.1)) ifaces

module _ (machine : Machine) where
  open machine use {list_afinet_netifas, if_nametoindex, parse_socket_addr}

  abbrev pub get_ifindex : String → Result ℕ NicError
  get_ifindex name = map_err (if_nametoindex name) (no_ifindex name)

  only_v4 : IpAddr × ℕ → Result (ℕ × ℕ) NicError
  only_v4 (v4 ip, port) = ok (ip, port)
  only_v4 (v6 _, port) = err ipv6_unsupported

  -- The proxy's IPv4 address and port.
  pub parse_proxy : String → Result (ℕ × ℕ) NicError
  unfolding only_v4
  parse_proxy address = do
    socket_addr ← map_err (parse_socket_addr address) (invalid_proxy_address address)
    only_v4 socket_addr

  -- The interface that has the proxy's address, and its index.
  pub proxy_index : Interfaces → ℕ → Result (String × ℕ) NicError
  unfolding find
  proxy_index ifaces ip = do
    iface ← ok_or (find_interface_by_ip ifaces ip) (proxy_ip_not_found ip)
    idx ← get_ifindex iface.0
    ok (iface.0, idx)

  pub named_index : Interfaces → String → Result (String × ℕ) NicError
  unfolding find
  named_index ifaces name = do
    iface ← ok_or (find_interface_by_name ifaces name) (ebpf_interface_not_found name)
    idx ← get_ifindex iface.0
    ok (iface.0, idx)

  pub first_index : Interfaces → Result (String × ℕ) NicError
  unfolding find
  first_index ifaces = do
    iface ← ok_or (find_first_non_loopback ifaces) no_non_loopback
    idx ← get_ifindex iface.0
    ok (iface.0, idx)

  -- `ebpf_ifindex` is `Some` wherever a configuration is built.
  abbrev config_of : ℕ × ℕ → (proxy_idx : ℕ) → (ebpf : String × ℕ) → Result ProxyEbpfConfig NicError
  config_of proxy proxy_idx ebpf = do
    ebpf_ifindex ← ok_or (some ebpf.1) no_ebpf_ifindex
    ok (record {
      proxy_ip = proxy.0;
      proxy_port = proxy.1;
      proxy_ifindex = proxy_idx;
      ebpf_ifindex = ebpf_ifindex;
      ebpf_ifname = ebpf.0;
    })

  both_on_loopback : Interfaces → ℕ × ℕ → String → Result ProxyEbpfConfig NicError
  both_on_loopback ifaces proxy name = do
    ebpf ← named_index ifaces name
    on ← proxy_index ifaces proxy.0
    config_of proxy on.1 (name, ebpf.1)

  both_on_nic : Interfaces → ℕ × ℕ → String → Result ProxyEbpfConfig NicError
  both_on_nic ifaces proxy name = do
    on ← proxy_index ifaces proxy.0
    iface ← ok_or (find_interface_by_name ifaces name) (ebpf_interface_not_found name)
    idx ← get_ifindex name
    config_of proxy on.1 (name, idx)

  -- Both arguments. The order of the two look-ups depends on where the proxy is.
  both_given : Interfaces → String → String → Result ProxyEbpfConfig NicError
  unfolding both_on_loopback both_on_nic
  both_given ifaces address name = do
    proxy ← parse_proxy address
    if is_loopback proxy.0
        then both_on_loopback ifaces proxy name
        else both_on_nic ifaces proxy name

  address_on_loopback : Interfaces → ℕ × ℕ → Result ProxyEbpfConfig NicError
  address_on_loopback ifaces proxy = do
    ebpf ← first_index ifaces
    on ← proxy_index ifaces proxy.0
    config_of proxy on.1 ebpf

  address_on_nic : Interfaces → ℕ × ℕ → Result ProxyEbpfConfig NicError
  address_on_nic ifaces proxy = do
    on ← proxy_index ifaces proxy.0
    iface ← ok_or (find_alternative ifaces on.0) no_alternative
    idx ← get_ifindex iface.0
    if str_eq on.0 iface.0
        then err (same_interface iface.0)
        else config_of proxy on.1 (iface.0, idx)

  -- Only the proxy's address.
  address_given : Interfaces → String → Result ProxyEbpfConfig NicError
  unfolding address_on_loopback address_on_nic
  address_given ifaces address = do
    proxy ← parse_proxy address
    if is_loopback proxy.0 then address_on_loopback ifaces proxy else address_on_nic ifaces proxy

  -- Only the interface.
  interface_given : Interfaces → String → Result ProxyEbpfConfig NicError
  interface_given ifaces name = do
    iface ← ok_or (find_interface_by_name ifaces name) (ebpf_interface_not_found name)
    idx ← get_ifindex name
    on ← proxy_index ifaces localhost
    config_of (localhost, 8080) on.1 (name, idx)

  none_given : Interfaces → Result ProxyEbpfConfig NicError
  none_given ifaces = do
    ebpf ← first_index ifaces
    on ← proxy_index ifaces localhost
    config_of (localhost, 8080) on.1 ebpf

  -- The blocks of the function; `none` falls through to the next.
  stage_both : Interfaces → Option String → Option String → Option (Result ProxyEbpfConfig NicError)
  unfolding both_given
  stage_both ifaces (some address) (some name) = some (both_given ifaces address name)
  stage_both ifaces _ _ = none

  stage_address :
      Interfaces → Option String → Option String → Option (Result ProxyEbpfConfig NicError)
  unfolding address_given
  stage_address ifaces (some address) none = some (address_given ifaces address)
  stage_address ifaces _ _ = none

  stage_interface :
      Interfaces → Option String → Option String → Option (Result ProxyEbpfConfig NicError)
  unfolding interface_given
  stage_interface ifaces none (some name) = some (interface_given ifaces name)
  stage_interface ifaces _ _ = none

  stage_none : Interfaces → Option String → Option String → Option (Result ProxyEbpfConfig NicError)
  unfolding none_given
  stage_none ifaces none none = some (none_given ifaces)
  stage_none ifaces _ _ = none

  abbrev or_next :
      Option (Result ProxyEbpfConfig NicError)
      → Result ProxyEbpfConfig NicError
      → Result ProxyEbpfConfig NicError
  or_next none next = next
  or_next (some r) next = r

  -- The block for an address alone is written out twice in the source.
  choose : Interfaces → Option String → Option String → Result ProxyEbpfConfig NicError
  unfolding stage_both stage_address stage_interface stage_none
  choose ifaces address name = or_next (stage_both ifaces address name) (
      or_next (stage_address ifaces address name) (
        or_next (stage_interface ifaces address name) (
          or_next (stage_address ifaces address name)
            (or_next (stage_none ifaces address name) (err invalid_combination)))))

  unfoldable pub determine_proxy_and_ebpf_config :
      Option String → Option String → Result ProxyEbpfConfig NicError
  unfolding choose keep_v4 parse_proxy proxy_index named_index first_index
  determine_proxy_and_ebpf_config proxy_address ebpf_interface = do
    interfaces ← map_err list_afinet_netifas no_interfaces
    choose (keep_v4 interfaces) proxy_address ebpf_interface
