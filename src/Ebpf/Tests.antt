-- ===== src/Ebpf/Tests.antt =====
-- The classifiers of lueur-ebpf-programs/src/main.rs run on a connection from port 40000 to port
-- 8888 of 127.0.0.1, with the proxy on port 3180.
use lueur.Prelude.{ap, ℕ, ◌+◌, ◌≡◌, refl, ◌≢◌, true, false, none, some, List, [], ◌∷◌, arith, ◌==◌}
use mathlib.Core.Option
use lueur.Ebpf.{
  ProxyConfig, FlowId, Packet, Kernel, tc_act_ok, tc_act_shot, from_be, lo_addr, ingress_flow,
  try_ingress, try_egress, lueur_route_ingress,
}
use lueur.Ebpf.Flows.{flow_list, find, insert}
use lueur.Ebpf.Laws.{IsRedirectable, IsReply, try_ingress-changes, try_egress-try_ingress}
use lueur.Ebpf.Unrestored.{fin_strands_replies}

abbrev config : ProxyConfig
config = record { proxy_ip = 0x0100007f; proxy_ifindex = 1; proxy_port = 3180 }

abbrev kernel : Kernel
kernel = record {
  proxy_config = some config;
  upstream_ports = λ port. port == 8888;
  store_ok = true;
  l4_csum_replace = λ check old new. some (check + old + new);
}

abbrev call : Packet
call = record {
  len = 60;
  is_ipv4 = true;
  is_tcp = true;
  src_addr = 0x0100007f;
  dst_addr = 0x0100007f;
  src_port = 40000;
  dst_port = 8888;
  fin = false;
  rst = false;
  check = 7;
}

abbrev reply : Packet
reply = record {
  len = 60;
  is_ipv4 = true;
  is_tcp = true;
  src_addr = 0x0100007f;
  dst_addr = 0x0100007f;
  src_port = 3180;
  dst_port = 40000;
  fin = false;
  rst = false;
  check = 7;
}

abbrev closing : Packet
closing = record call { fin = true }

abbrev called : List (FlowId × ℕ)
called = (ingress_flow call, 8888) ∷ []

redirected : try_ingress flow_list kernel call [] ≡ record {
  verdict = some tc_act_ok;
  packet = record call { dst_port = 3180; check = 12075 };
  flows = called;
}
unfolding try_ingress insert from_be
redirected = refl

call-IsRedirectable : IsRedirectable kernel call
unfolding from_be
call-IsRedirectable = record {
  is_ipv4 = refl;
  is_tcp = refl;
  len = omega arith;
  fin = refl;
  rst = refl;
  from = refl;
  to = refl;
}

reply-IsReply : IsReply call config reply
reply-IsReply = record {
  from = refl;
  to = refl;
  from_port = refl;
  to_port = refl;
  is_ipv4 = refl;
  is_tcp = refl;
  len = omega arith;
  fin = refl;
  rst = refl;
}

call_changes : (try_ingress flow_list kernel call []).packet ≢ call
unfolding try_ingress insert from_be
call_changes e = omega (arith, ap (λ (p : Packet). p.dst_port) e)

try_ingress-changes_example :
    IsRedirectable kernel call
    × (Option.map (λ (c : ProxyConfig). c.proxy_port) kernel.proxy_config
        ≡ some (try_ingress flow_list kernel call []).packet.dst_port)
    × (record ((try_ingress flow_list kernel call []).packet) { dst_port = 8888; check = 7 } ≡ call)
try_ingress-changes_example = try_ingress-changes flow_list kernel call [] call_changes

accepted : (try_ingress flow_list kernel call []).verdict ≡ some tc_act_ok
unfolding try_ingress insert from_be
accepted = refl

answered :
    (try_egress flow_list kernel reply (try_ingress flow_list kernel call []).flows).verdict
    ≡ some tc_act_ok
unfolding try_ingress try_egress insert find from_be
answered = refl

try_egress-try_ingress_example :
    ((try_ingress flow_list kernel call []).packet.dst_port ≡ 3180)
    × ((try_egress flow_list kernel reply
          (try_ingress flow_list kernel call []).flows).packet.src_port
        ≡ 8888)
try_egress-try_ingress_example =
    try_egress-try_ingress flow_list kernel kernel config call reply []
      (try_ingress flow_list kernel call []).flows call-IsRedirectable refl refl refl accepted refl
      reply-IsReply answered

from_loopback : from_be 0x0100007f ≡ lo_addr
unfolding from_be
from_loopback = refl

fin_strands_replies_example :
    ((try_ingress flow_list kernel closing called).packet ≡ closing)
    × ((try_egress flow_list kernel reply
          (try_ingress flow_list kernel closing called).flows).packet
        ≡ reply)
    × ((try_egress flow_list kernel reply
          (try_ingress flow_list kernel closing called).flows).verdict
        ≡ some tc_act_ok)
fin_strands_replies_example =
    fin_strands_replies flow_list kernel kernel config closing reply called
      (record { is_ipv4 = refl; is_tcp = refl; len = omega arith; fin = refl; rst = refl })
      from_loopback refl refl
      (record {
        from = refl;
        to = refl;
        from_port = refl;
        to_port = refl;
        is_ipv4 = refl;
        is_tcp = refl;
        len = omega arith;
        fin = refl;
        rst = refl;
      })

-- The rewrite fails after the port was written: the packet is dropped, and the flow is recorded.
route_dropped :
    lueur_route_ingress flow_list (record kernel { l4_csum_replace = λ _ _ _. none }) call []
    ≡ (2, tc_act_shot)
unfolding lueur_route_ingress try_ingress insert from_be
route_dropped = refl
