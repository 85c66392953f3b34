-- ===== src/Ebpf/Attach.antt =====
-- `install_and_run` of lueur-cli/src/ebpf.rs, and `initialize_stealth` of lueur-cli/src/main.rs: how
-- the programs are loaded and attached before their maps are filled. The programs of an image are
-- parameters; the limit on locked memory, the queueing discipline and the logger, whose failures
-- are dropped, are left out.
mod Tests
use lueur.Prelude.{
  String, Bool, Option, none, some, List, Result, ok, err, is_ok, Run, done, ◌>>=◌, ◌≡◌, unwrap,
  unwrap_ok, if◌then◌else◌,
}
use lueur.Upstream.{UrlApi}
use lueur.Nic.{ProxyEbpfConfig}
use lueur.Ebpf.{ProxyConfig}
use lueur.Ebpf.Install.{PortMap, install}

pub data TcAttachType : Type 0 where
  ingress egress : TcAttachType

-- `aya`: `program_mut` and `try_into` find a program of an image; `load` and `attach` change it.
pub record Images : Type 1 where
  pub Image : Type 0
  pub Program : Type 0
  pub image : Result Image String
  pub program_mut : Image → String → Option (Result Program String)
  pub load : Program → Program × Result (Unit {0}) String
  pub attach : Program → (iface : String) → TcAttachType → Program × Result (Unit {0}) String

-- A program as it is left, and whether it was loaded and attached.
pub record Attached (Program : Type 0) : Type 0 where
  pub program : Program
  pub loaded : Bool
  pub attached : Bool

module _ (a : Images) where
  open a use {Image, Program, load, attach}

  -- Both errors are logged, and an attempt to attach follows a failure to load.
  pub attach_program : (iface : String) → TcAttachType → Program → Attached Program
  attach_program iface type program =
      let (loaded, l) = load program in
      let (attached, r) = attach loaded iface type in
      record { program = attached; loaded = is_ok l; attached = is_ok r }

  -- `program_mut(..).unwrap().try_into()?` and what follows.
  pub route : Image → (iface name : String) → TcAttachType → Run (Result (Attached Program) String)
  unfolding attach_program
  route image iface name type = do
    found ← unwrap (a.program_mut image name)
    elim found [ err e ↦ done (err e) | ok program ↦ done (ok (attach_program iface type program)) ]

  module _ (u : UrlApi) (p : PortMap) where
    -- Both programs, and the maps; the text of an error of a map is left out.
    pub install_and_run :
        Image
        → ProxyEbpfConfig
        → List String
        → Run (Result (Attached Program × Attached Program × ProxyConfig × p.M) String)
    unfolding route
    install_and_run image c upstream_ports = do
      first ← route image c.ebpf_ifname "lueur_route_ingress" ingress
      elim first [
        | err e ↦ done (err e)
        | ok i ↦ do
          second ← route image c.ebpf_ifname "lueur_route_egress" egress
          elim second [
            | err e ↦ done (err e)
            | ok o ↦ do
              filled ← install u p c upstream_ports
              done (elim filled [ none ↦ err "map" | some maps ↦ ok (i, o, maps.0, maps.1) ])
          ]
      ]

    -- The image that is kept, if any; what `install_and_run` returns is dropped.
    pub initialize_stealth : (ebpf : Bool) → ProxyEbpfConfig → List String → Run (Option Image)
    unfolding install_and_run
    initialize_stealth ebpf c upstream_hosts =
        if ebpf
        then (do
          image ← unwrap_ok (done (a.image))
          dropped ← install_and_run image c upstream_hosts
          done (some image))
        else done none

    -- Where both programs are found, the maps are filled and `Ok` is returned whether or not the
    -- programs can be loaded or attached.
    install_and_run-ok :
        (image : Image) (c : ProxyEbpfConfig) (hosts : List String) (i o : Program)
        (config : ProxyConfig) (m : p.M)
        → a.program_mut image "lueur_route_ingress" ≡ some (ok i)
        → a.program_mut image "lueur_route_egress" ≡ some (ok o)
        → install u p c hosts ≡ done (some (config, m))
        → install_and_run image c hosts
          ≡ done (
              ok (
                attach_program c.ebpf_ifname ingress i,
                attach_program c.ebpf_ifname egress o,
                config,
                m,
              ))
    unfolding install_and_run route
    install_and_run-ok image c hosts i o config m found found' filled = rw (found, found', filled)
