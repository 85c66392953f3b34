-- ===== src/Nic/Tests.antt =====
-- lueur-cli/src/nic.rs run on a machine with a loopback interface and two network cards.
use lueur.Prelude.{
  String, str_eq, ℕ, ◌≡◌, refl, true, none, some, List, [], ◌∷◌, Result, ok, err, if◌then◌else◌,
}
use lueur.Nic.{
  IpAddr, v4, v6, ProxyEbpfConfig, no_alternative, ipv6_unsupported, Machine, keep_v4,
  determine_proxy_and_ebpf_config, message,
}
use lueur.Nic.Laws.{Consistent, determine_proxy_and_ebpf_config-Consistent}
use lueur.Nic.Errors.{can_occur, determine_proxy_and_ebpf_config-err}

-- 192.168.1.34 and 10.0.0.2
abbrev card : ℕ
card = 3232235810

abbrev second_card : ℕ
second_card = 167772162

abbrev interfaces : List (String × IpAddr)
interfaces =
    ("lo", v4 2130706433) ∷ ("lo", v6 1) ∷ ("eth0", v4 card) ∷ ("eth1", v4 second_card) ∷ []

abbrev parse : String → Result (IpAddr × ℕ) String
parse s =
    if str_eq s "192.168.1.34:3180"
    then ok (v4 card, 3180)
    else if str_eq s "[::1]:3180"
    then ok (v6 1, 3180)
    else err "invalid socket address syntax"

abbrev index : String → Result ℕ String
index s = if str_eq s "lo" then ok 1 else if str_eq s "eth0" then ok 2 else ok 3

abbrev machine : Machine
machine = record {
  list_afinet_netifas = ok interfaces;
  if_nametoindex = index;
  parse_socket_addr = parse;
}

abbrev one_card : Machine
one_card = record machine {
  list_afinet_netifas = ok (("lo", v4 2130706433) ∷ ("eth0", v4 card) ∷ []);
}

abbrev on_card : ProxyEbpfConfig
on_card = record {
  proxy_ip = card;
  proxy_port = 3180;
  proxy_ifindex = 2;
  ebpf_ifindex = 3;
  ebpf_ifname = "eth1";
}

on_card_lem : determine_proxy_and_ebpf_config machine (some "192.168.1.34:3180") none ≡ ok on_card
unfolding determine_proxy_and_ebpf_config
on_card_lem = refl

default :
    determine_proxy_and_ebpf_config machine none none
    ≡ ok (record {
      proxy_ip = 2130706433;
      proxy_port = 8080;
      proxy_ifindex = 1;
      ebpf_ifindex = 2;
      ebpf_ifname = "eth0";
    })
unfolding determine_proxy_and_ebpf_config
default = refl

no_ipv6 :
    determine_proxy_and_ebpf_config machine (some "[::1]:3180") (some "eth0") ≡ err ipv6_unsupported
unfolding determine_proxy_and_ebpf_config
no_ipv6 = refl

ipv6_message : message (λ _. "") ipv6_unsupported ≡ "IPV6 addresses are not supported"
unfolding message
ipv6_message = refl

determine_proxy_and_ebpf_config-Consistent_example :
    Consistent machine (keep_v4 interfaces) (some "192.168.1.34:3180") none on_card
determine_proxy_and_ebpf_config-Consistent_example =
    determine_proxy_and_ebpf_config-Consistent machine interfaces (some "192.168.1.34:3180") none
      on_card refl on_card_lem

alone :
    determine_proxy_and_ebpf_config one_card (some "192.168.1.34:3180") none ≡ err no_alternative
unfolding determine_proxy_and_ebpf_config
alone = refl

determine_proxy_and_ebpf_config-err_example : can_occur no_alternative ≡ true
determine_proxy_and_ebpf_config-err_example =
    determine_proxy_and_ebpf_config-err one_card (some "192.168.1.34:3180") none no_alternative
      alone
