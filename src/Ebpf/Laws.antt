-- ===== src/Ebpf/Laws.antt =====
-- What the classifiers do to packets and to the flow map.
use lueur.Prelude.{ℕ, ◌≤◌, ◌≡◌, ◌≢◌, true, false, some, arith, ◌∙◌, Option-cases, inl, inr}
use mathlib.Core.Option
use lueur.Ebpf.{
  ProxyConfig, FlowId, Packet, FlowMap, Kernel, tc_act_ok, from_be, lo_addr, same_flow,
  ingress_flow, egress_flow, try_ingress, try_egress,
}

-- TCP over IPv4 with all three headers, without FIN and RST, from 127.0.0.1 to a tracked port.
pub record IsRedirectable (k : Kernel) (p : Packet) : Type 0 where
  pub is_ipv4 : p.is_ipv4 ≡ true
  pub is_tcp : p.is_tcp ≡ true
  pub len : 54 ≤ p.len
  pub fin : p.fin ≡ false
  pub rst : p.rst ≡ false
  pub from : from_be p.src_addr ≡ lo_addr
  pub to : k.upstream_ports p.dst_port ≡ true

-- A reply of the proxy to the sender of `p`.
pub record IsReply (p : Packet) (config : ProxyConfig) (r : Packet) : Type 0 where
  pub from : r.src_addr ≡ p.dst_addr
  pub to : r.dst_addr ≡ p.src_addr
  pub from_port : r.src_port ≡ config.proxy_port
  pub to_port : r.dst_port ≡ p.src_port
  pub is_ipv4 : r.is_ipv4 ≡ true
  pub is_tcp : r.is_tcp ≡ true
  pub len : 54 ≤ r.len
  pub fin : r.fin ≡ false
  pub rst : r.rst ≡ false

pub same_flow_refl : (f : FlowId) → same_flow f f ≡ true
same_flow_refl f = ground arith

module _ (fm : FlowMap) where
  open fm use {M, lookup, update, lookup-update, lookup-delete}

  -- Ingress changes a packet only if it is TCP over IPv4 with all three headers, without FIN and
  -- RST, from 127.0.0.1 to a tracked port, and then only its destination port, which becomes the
  -- proxy's, and its checksum.
  pub try_ingress-changes :
      (k : Kernel) (p : Packet) (m : M)
      → (try_ingress fm k p m).packet ≢ p
      → IsRedirectable k p
        × (Option.map (λ (c : ProxyConfig). c.proxy_port) k.proxy_config
            ≡ some (try_ingress fm k p m).packet.dst_port)
        × (record ((try_ingress fm k p m).packet) { dst_port = p.dst_port; check = p.check } ≡ p)
  unfolding try_ingress
  try_ingress-changes k p m h = ground arith

  -- A program keeps the record of every other flow: after ingress, the flow map differs from what
  -- it was at most at the packet's own flow.
  pub try_ingress-other_flows :
      (k : Kernel) (p : Packet) (m : M) (g : FlowId)
      → same_flow (ingress_flow p) g ≡ false
      → lookup g (try_ingress fm k p m).flows ≡ lookup g m
  unfolding try_ingress
  try_ingress-other_flows k p m g h = elim (Option-cases (update (ingress_flow p) p.dst_port m)) [
    | inl full ↦ ground (arith, lookup-delete (ingress_flow p) g m)
    | inr (m', done) ↦ ground (
      arith,
      lookup-delete (ingress_flow p) g m,
      lookup-update (ingress_flow p) g p.dst_port m m' done,
    )
  ]

  try_ingress-records :
      (k : Kernel) (c : ProxyConfig) (p : Packet) (m : M)
      → IsRedirectable k p
      → k.proxy_config ≡ some c
      → (try_ingress fm k p m).verdict ≡ some tc_act_ok
      → ((try_ingress fm k p m).packet.dst_port ≡ c.proxy_port)
        × (lookup (ingress_flow p) (try_ingress fm k p m).flows ≡ some p.dst_port)
  unfolding try_ingress
  try_ingress-records k c p m h e okay =
      elim (Option-cases (update (ingress_flow p) p.dst_port m)) [
        | inl full ↦ ground arith
        | inr (m', done) ↦ ground (
          arith,
          same_flow_refl (ingress_flow p),
          lookup-update (ingress_flow p) (ingress_flow p) p.dst_port m m' done,
        )
      ]

  try_egress-restores :
      (k : Kernel) (c : ProxyConfig) (p r : Packet) (m : M) (port : ℕ)
      → from_be p.src_addr ≡ lo_addr
      → p.dst_addr ≡ p.src_addr
      → k.proxy_config ≡ some c
      → IsReply p c r
      → lookup (egress_flow r) m ≡ some port
      → (try_egress fm k r m).verdict ≡ some tc_act_ok
      → (try_egress fm k r m).packet.src_port ≡ port
  unfolding try_egress
  try_egress-restores k c p r m port lo loop e reply found okay =
      let lo' : from_be r.src_addr ≡ lo_addr = rw (reply.from, loop) lo in ground arith

  -- The round trip of a redirected connection between loopback addresses: the proxy's reply leaves
  -- with the port that the client had called, whatever happened to other flows.
  pub try_egress-try_ingress :
      (k k' : Kernel) (c : ProxyConfig) (p r : Packet) (m m' : M)
      → IsRedirectable k p
      → p.dst_addr ≡ p.src_addr
      → k.proxy_config ≡ some c
      → k'.proxy_config ≡ some c
      → (try_ingress fm k p m).verdict ≡ some tc_act_ok
      → lookup (ingress_flow p) m' ≡ lookup (ingress_flow p) (try_ingress fm k p m).flows
      → IsReply p c r
      → (try_egress fm k' r m').verdict ≡ some tc_act_ok
      → ((try_ingress fm k p m).packet.dst_port ≡ c.proxy_port)
        × ((try_egress fm k' r m').packet.src_port ≡ p.dst_port)
  try_egress-try_ingress k k' c p r m m' redirectable loop e e' okay same reply okay' =
      let (to_proxy, recorded) = try_ingress-records k c p m redirectable e okay in
      let flow : egress_flow r ≡ ingress_flow p = ground arith in
      (
        to_proxy,
        try_egress-restores k' c p r m' p.dst_port redirectable.from loop e' reply
            (rw flow (same ∙ recorded)) okay',
      )
