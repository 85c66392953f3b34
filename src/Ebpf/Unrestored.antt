-- ===== src/Ebpf/Unrestored.antt =====
-- Replies that keep the proxy's port.
use lueur.Prelude.{◌≤◌, ◌≡◌, ◌≢◌, true, false, none, some, arith}
use lueur.Ebpf.{
  ProxyConfig, Packet, FlowMap, Kernel, tc_act_ok, tc_act_pipe, from_be, lo_addr, ingress_flow,
  egress_flow, try_ingress, try_egress,
}
use lueur.Ebpf.Laws.{IsReply, same_flow_refl}

-- The packet by which the client closes its side of the connection.
pub record IsClosing (p : Packet) : Type 0 where
  pub is_ipv4 : p.is_ipv4 ≡ true
  pub is_tcp : p.is_tcp ≡ true
  pub len : 54 ≤ p.len
  pub fin : p.fin ≡ true
  pub rst : p.rst ≡ false

module _ (fm : FlowMap) where
  open fm use {M, lookup, lookup-delete}

  try_ingress_of_fin :
      (k : Kernel) (p : Packet) (m : M)
      → IsClosing p
      → ((try_ingress fm k p m).packet ≡ p)
        × ((try_ingress fm k p m).verdict ≡ some tc_act_ok)
        × (lookup (ingress_flow p) (try_ingress fm k p m).flows ≡ none)
  unfolding try_ingress
  try_ingress_of_fin k p m h =
      ground
        (arith, lookup-delete (ingress_flow p) (ingress_flow p) m, same_flow_refl (ingress_flow p))

  try_egress_of_missing :
      (k : Kernel) (c : ProxyConfig) (p r : Packet) (m : M)
      → from_be p.src_addr ≡ lo_addr
      → p.dst_addr ≡ p.src_addr
      → k.proxy_config ≡ some c
      → IsReply p c r
      → lookup (egress_flow r) m ≡ none
      → ((try_egress fm k r m).packet ≡ r) × ((try_egress fm k r m).verdict ≡ some tc_act_ok)
  unfolding try_egress
  try_egress_of_missing k c p r m lo loop e reply lost = ground arith

  -- A client's FIN passes with its destination port unchanged, so it does not reach the proxy, and
  -- it makes the program forget the flow: what the proxy still sends on that connection leaves with
  -- the proxy's own port.
  pub fin_strands_replies :
      (k k' : Kernel) (c : ProxyConfig) (p r : Packet) (m : M)
      → IsClosing p
      → from_be p.src_addr ≡ lo_addr
      → p.dst_addr ≡ p.src_addr
      → k'.proxy_config ≡ some c
      → IsReply p c r
      → ((try_ingress fm k p m).packet ≡ p)
        × ((try_egress fm k' r (try_ingress fm k p m).flows).packet ≡ r)
        × ((try_egress fm k' r (try_ingress fm k p m).flows).verdict ≡ some tc_act_ok)
  fin_strands_replies k k' c p r m closing lo loop e reply =
      let (unchanged, passed, forgotten) = try_ingress_of_fin k p m closing in
      let flow : egress_flow r ≡ ingress_flow p = ground arith in
      let (kept, sent) =
        try_egress_of_missing k' c p r (try_ingress fm k p m).flows lo loop e reply
          (rw flow forgotten) in
      (unchanged, kept, sent)

  -- A connection from 127.0.0.1 to another address is redirected, but its replies do not come from
  -- 127.0.0.1, and egress passes them with the proxy's port, whatever the flow map holds.
  pub other_address_unrestored :
      (k : Kernel) (c : ProxyConfig) (p r : Packet) (m : M)
      → from_be p.dst_addr ≢ lo_addr
      → k.proxy_config ≡ some c
      → IsReply p c r
      → ((try_egress fm k r m).packet ≡ r) × ((try_egress fm k r m).verdict ≡ some tc_act_pipe)
  unfolding try_egress
  other_address_unrestored k c p r m far e reply =
      let far' : from_be r.src_addr ≢ lo_addr = rw (reply.from) far in ground arith
