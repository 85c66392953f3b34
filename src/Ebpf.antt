-- ===== src/Ebpf.antt =====
-- lueur-ebpf-programs/src/main.rs: the two classifiers that redirect loopback TCP traffic to the
-- proxy. A packet is given by its length and the header fields that the programs read; ports and
-- addresses are the raw network-order words. The kernel's maps and helpers are parameters.
pub mod Laws
pub mod Flows
pub mod Unrestored
pub mod Install
pub mod Attach
mod Tests
use lueur.Prelude.{
  ℕ, ◌+◌, ◌*◌, ◌/◌, ◌%◌, ◌^◌, ◌≡◌, Bool, true, false, not, ◌&&◌, Option, none, some, ltb, ◌==◌,
  if◌then◌else◌,
}

pub record ProxyConfig : Type 0 where
  pub proxy_ip : ℕ
  pub proxy_ifindex : ℕ
  pub proxy_port : ℕ

pub record FlowId : Type 0 where
  pub src_addr : ℕ
  pub dst_addr : ℕ
  pub src_port : ℕ

pub record Packet : Type 0 where
  pub len : ℕ
  pub is_ipv4 : Bool
  pub is_tcp : Bool
  pub src_addr : ℕ
  pub dst_addr : ℕ
  pub src_port : ℕ
  pub dst_port : ℕ
  pub fin : Bool
  pub rst : Bool
  pub check : ℕ

pub data Verdict : Type 0 where
  tc_act_ok tc_act_pipe tc_act_shot : Verdict

abbrev pub same_flow : FlowId → FlowId → Bool
same_flow f g = f.src_addr == g.src_addr && f.dst_addr == g.dst_addr && f.src_port == g.src_port

-- FLOW_MAP, a hash map of the kernel: `update` fails when the map is full and the key is new.
pub record FlowMap : Type 1 where
  pub M : Type 0
  pub lookup : FlowId → M → Option ℕ
  pub update : FlowId → ℕ → M → Option M
  pub delete : FlowId → M → M
  pub lookup-update :
      (f g : FlowId) (port : ℕ) (m m' : M)
      → update f port m ≡ some m'
      → lookup g m' ≡ (if same_flow f g then some port else lookup g m)
  pub lookup-delete :
      (f g : FlowId) (m : M) → lookup g (delete f m) ≡ (if same_flow f g then none else lookup g m)

-- What a program finds in the kernel when it runs: entry 0 of PROXY_CONFIG_MAP, the keys of
-- UPSTREAM_PORTS_MAP, and the helpers that write to the packet. `l4_csum_replace check old new` is
-- the new checksum.
pub record Kernel : Type 0 where
  pub proxy_config : Option ProxyConfig
  pub upstream_ports : ℕ → Bool
  pub store_ok : Bool
  pub l4_csum_replace : ℕ → ℕ → ℕ → Option ℕ

-- The sizes of an Ethernet, an IPv4 and a TCP header.
abbrev eth_len : ℕ
eth_len = 14

abbrev ipv4_len : ℕ
ipv4_len = 20

abbrev tcp_len : ℕ
tcp_len = 20

-- `ptr_at_mut`, and the bounds check of `ctx.load`: whether `size` bytes lie at `offset`.
abbrev ptr_at_mut : Packet → (offset size : ℕ) → Bool
ptr_at_mut p offset size = not (ltb p.len (offset + size))

-- `u32::from_be` on a little-endian machine.
pub from_be : ℕ → ℕ
from_be x = x % 256 * 2 ^ 24 + x / 256 % 256 * 2 ^ 16 + x / 2 ^ 16 % 256 * 256 + x / 2 ^ 24 % 256

abbrev pub lo_addr : ℕ
lo_addr = 2130706433

-- The port written by a store, then the checksum: the error leaves what was stored.
abbrev pub set_dst : ℕ → Packet → Packet
set_dst port p = record p { dst_port = port }

abbrev pub set_src : ℕ → Packet → Packet
set_src port p = record p { src_port = port }

pub modify_tcp_port :
    Kernel → (set : ℕ → Packet → Packet) (old_port new_port : ℕ) → Packet → Bool × Packet
modify_tcp_port k set old_port new_port p =
    if k.store_ok
    then elim (k.l4_csum_replace p.check old_port new_port) [
      | none ↦ (false, set new_port p)
      | some check ↦ (true, record (set new_port p) { check = check })
    ]
    else (false, p)

abbrev pub ingress_flow : Packet → FlowId
ingress_flow p = record { src_addr = p.src_addr; dst_addr = p.dst_addr; src_port = p.src_port }

abbrev pub egress_flow : Packet → FlowId
egress_flow p = record { src_addr = p.src_addr; dst_addr = p.dst_addr; src_port = p.dst_port }

module _ (fm : FlowMap) where
  open fm use {M, lookup, update, delete}

  -- What a program returns (`none` is `Err(())`), the packet that it leaves and the flow map.
  pub record Run : Type 0 where
    pub verdict : Option Verdict
    pub packet : Packet
    pub flows : M

  abbrev pub stop : Verdict → Packet → M → Run
  stop v p m = record { verdict = some v; packet = p; flows = m }

  abbrev pub fail : Packet → M → Run
  fail p m = record { verdict = none; packet = p; flows = m }

  -- The checks that both programs begin with, up to the TCP header.
  parse_headers : Packet → M → Run → Run
  parse_headers p m rest =
      if ptr_at_mut p 0 eth_len
      then if p.is_ipv4
        then if ptr_at_mut p eth_len ipv4_len
          then if p.is_tcp
            then if ptr_at_mut p (eth_len + ipv4_len) tcp_len then rest else fail p m
            else stop tc_act_pipe p m
          else fail p m
        else stop tc_act_pipe p m
      else fail p m

  -- The end of a program that rewrote a port, or failed to.
  finish_rewrite : Bool × Packet → M → Run
  finish_rewrite (true, p) m = stop tc_act_ok p m
  finish_rewrite (false, p) m = stop tc_act_shot p m

  -- `is_tracked_upstream_port`, `update_flow_map` and the rewrite of the destination port.
  redirect : Kernel → ProxyConfig → Packet → M → Run
  unfolding modify_tcp_port finish_rewrite
  redirect k config p m =
      if k.upstream_ports p.dst_port
      then elim (update (ingress_flow p) p.dst_port m) [
        | none ↦ stop tc_act_shot p m
        | some m' ↦ finish_rewrite (modify_tcp_port k set_dst p.dst_port config.proxy_port p) m'
      ]
      else stop tc_act_ok p m

  restore : Kernel → ProxyConfig → Packet → M → Run
  unfolding modify_tcp_port finish_rewrite
  restore k config p m =
      if p.src_port == config.proxy_port
      then elim (lookup (egress_flow p) m) [
        | none ↦ stop tc_act_ok p m
        | some original ↦ finish_rewrite (modify_tcp_port k set_src config.proxy_port original p) m
      ]
      else stop tc_act_ok p m

  -- From the flags on: RST passes, FIN forgets the flow, other packets from 127.0.0.1 are rewritten.
  after_headers : Kernel → FlowId → (Kernel → ProxyConfig → Packet → M → Run) → Packet → M → Run
  after_headers k flow rewrite p m =
      if p.rst
      then stop tc_act_ok p m
      else if p.fin
      then stop tc_act_ok p (delete flow m)
      else elim (k.proxy_config) [
        | none ↦ fail p m
        | some config ↦
            if from_be p.src_addr == lo_addr then rewrite k config p m else stop tc_act_pipe p m
      ]

  pub try_ingress : Kernel → Packet → M → Run
  unfolding parse_headers after_headers redirect
  try_ingress k p m = parse_headers p m (after_headers k (ingress_flow p) redirect p m)

  pub try_egress : Kernel → Packet → M → Run
  unfolding parse_headers after_headers restore
  try_egress k p m = parse_headers p m (after_headers k (egress_flow p) restore p m)

  abbrev pub or_shot : Option Verdict → Verdict
  or_shot none = tc_act_shot
  or_shot (some v) = v

  -- `lueur_route_ingress` and `lueur_route_egress`: the interface that `bpf_redirect` is called
  -- with, and the verdict returned. The result of `bpf_redirect` is dropped.
  pub lueur_route_ingress : Kernel → Packet → M → ℕ × Verdict
  lueur_route_ingress k p m = (2, or_shot (try_ingress k p m).verdict)

  unfoldable pub lueur_route_egress : Kernel → Packet → M → ℕ × Verdict
  lueur_route_egress k p m = (1, or_shot (try_egress k p m).verdict)
