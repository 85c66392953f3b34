-- ===== src/Ebpf/Attach/Tests.antt =====
-- An image with one program, which the interface refuses.
use lueur.Prelude.{
  String, str_eq, ◌≡◌, refl, true, false, none, some, ok, err, done, panic, if◌then◌else◌,
}
use lueur.Ebpf.Attach.{Images, ingress, egress, route, attach_program}

abbrev refused : Images
refused = record {
  Image = Unit {0};
  Program = String;
  image = ok tt;
  program_mut = λ image name. if str_eq name "lueur_route_ingress" then some (ok "new") else none;
  load = λ program. ("loaded", ok tt);
  attach = λ program iface type. (program, err "no such device");
}

only_logged :
    route refused tt "eth7" "lueur_route_ingress" ingress
    ≡ done (ok (record { program = "loaded"; loaded = true; attached = false }))
unfolding route attach_program
only_logged = refl

missing : route refused tt "eth7" "lueur_route_egress" egress ≡ panic
unfolding route
missing = refl
