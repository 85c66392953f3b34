-- ===== src/Nic/Errors.antt =====
-- The errors that cannot occur.
use lueur.Prelude.{
  String, str_eq, ℕ, ◌≡◌, refl, Bool, true, false, Option, none, some, Result, ok, err, arith, inl,
  inr, ◌⊎◌, Option-cases,
}
use lueur.Nic.{
  NicError, same_interface, no_ebpf_ifindex, invalid_combination, Machine, Interfaces, localhost,
  parse_proxy, determine_proxy_and_ebpf_config, choose, keep_v4, find_alternative, proxy_index,
  named_index, first_index, both_given, address_given, interface_given, none_given,
  both_on_loopback, both_on_nic, address_on_loopback, address_on_nic, stage_both, stage_address,
  stage_interface, stage_none,
}
use lueur.Nic.Inversion.{find-Listed, and-not, str_eq-symm_false}

abbrev pub can_occur : NicError → Bool
can_occur (same_interface _) = false
can_occur no_ebpf_ifindex = false
can_occur invalid_combination = false
can_occur _ = true

abbrev Expected : {A : Type 0} → Result A NicError → Type 0
Expected m = (e : NicError) → m ≡ err e → can_occur e ≡ true

Result-cases : {A E : Type 0} (r : Result A E) → ((e : E) × (r ≡ err e)) ⊎ ((a : A) × (r ≡ ok a))
Result-cases (ok a) = inr (a, refl)
Result-cases (err e) = inl (e, refl)

module _ (machine : Machine) where
  parse_proxy-err : (address : String) → Expected (parse_proxy machine address)
  unfolding parse_proxy
  parse_proxy-err address e h = ground arith

  proxy_index-err : (ifaces : Interfaces) (ip : ℕ) → Expected (proxy_index machine ifaces ip)
  unfolding proxy_index
  proxy_index-err ifaces ip e h = ground arith

  named_index-err :
      (ifaces : Interfaces) (name : String) → Expected (named_index machine ifaces name)
  unfolding named_index
  named_index-err ifaces name e h = ground arith

  first_index-err : (ifaces : Interfaces) → Expected (first_index machine ifaces)
  unfolding first_index
  first_index-err ifaces e h = ground arith

  both_on_loopback-err :
      (ifaces : Interfaces) (proxy : ℕ × ℕ) (name : String)
      → Expected (both_on_loopback machine ifaces proxy name)
  unfolding both_on_loopback
  both_on_loopback-err ifaces proxy name e h =
      ground (arith, named_index-err ifaces name e, proxy_index-err ifaces proxy.0 e)

  both_on_nic-err :
      (ifaces : Interfaces) (proxy : ℕ × ℕ) (name : String)
      → Expected (both_on_nic machine ifaces proxy name)
  unfolding both_on_nic
  both_on_nic-err ifaces proxy name e h = ground (arith, proxy_index-err ifaces proxy.0 e)

  address_on_loopback-err :
      (ifaces : Interfaces) (proxy : ℕ × ℕ) → Expected (address_on_loopback machine ifaces proxy)
  unfolding address_on_loopback
  address_on_loopback-err ifaces proxy e h =
      ground (arith, first_index-err ifaces e, proxy_index-err ifaces proxy.0 e)

  -- The alternative that is found has another name, so the comparison of the names fails.
  other_name :
      (ifaces : Interfaces) (name : String) (iface : String × ℕ)
      → find_alternative ifaces name ≡ some iface
      → str_eq name iface.0 ≡ false
  other_name ifaces name iface found =
      str_eq-symm_false iface.0 name (and-not (find-Listed _ ifaces iface found).1).0

  address_on_nic-err :
      (ifaces : Interfaces) (proxy : ℕ × ℕ) → Expected (address_on_nic machine ifaces proxy)
  unfolding address_on_nic
  address_on_nic-err ifaces proxy e h = elim (Result-cases (proxy_index machine ifaces proxy.0)) [
    | inl (x, fails) ↦ ground (arith, proxy_index-err ifaces proxy.0 x)
    | inr (on, found) ↦ elim (Option-cases (find_alternative ifaces on.0)) [
      | inl missing ↦ ground arith
      | inr (iface, alternative) ↦ ground (arith, other_name ifaces on.0 iface alternative)
    ]
  ]

  both_given-err :
      (ifaces : Interfaces) (address name : String)
      → Expected (both_given machine ifaces address name)
  unfolding both_given
  both_given-err ifaces address name e h = elim (Result-cases (parse_proxy machine address)) [
    | inl (x, fails) ↦ ground (arith, parse_proxy-err address x)
    | inr (proxy, parsed) ↦
        ground
          (arith, both_on_loopback-err ifaces proxy name e, both_on_nic-err ifaces proxy name e)
  ]

  address_given-err :
      (ifaces : Interfaces) (address : String) → Expected (address_given machine ifaces address)
  unfolding address_given
  address_given-err ifaces address e h = elim (Result-cases (parse_proxy machine address)) [
    | inl (x, fails) ↦ ground (arith, parse_proxy-err address x)
    | inr (proxy, parsed) ↦
        ground (arith, address_on_loopback-err ifaces proxy e, address_on_nic-err ifaces proxy e)
  ]

  interface_given-err :
      (ifaces : Interfaces) (name : String) → Expected (interface_given machine ifaces name)
  unfolding interface_given
  interface_given-err ifaces name e h = ground (arith, proxy_index-err ifaces localhost e)

  none_given-err : (ifaces : Interfaces) → Expected (none_given machine ifaces)
  unfolding none_given
  none_given-err ifaces e h =
      ground (arith, first_index-err ifaces e, proxy_index-err ifaces localhost e)

  choose-err :
      (ifaces : Interfaces) (address name : Option String)
      → Expected (choose machine ifaces address name)
  unfolding choose stage_both stage_address stage_interface stage_none
  choose-err ifaces (some address) (some name) = both_given-err ifaces address name
  choose-err ifaces (some address) none = address_given-err ifaces address
  choose-err ifaces none (some name) = interface_given-err ifaces name
  choose-err ifaces none none = none_given-err ifaces

  -- Three of the function's errors never come back: that the proxy and the eBPF programs would share
  -- an interface, that the eBPF interface has no index, and that no block applies to the arguments.
  pub determine_proxy_and_ebpf_config-err :
      (address name : Option String) (e : NicError)
      → determine_proxy_and_ebpf_config machine address name ≡ err e
      → can_occur e ≡ true
  unfolding determine_proxy_and_ebpf_config
  determine_proxy_and_ebpf_config-err address name e h =
      elim (Result-cases machine.list_afinet_netifas) [
        | inl (x, fails) ↦ ground arith
        | inr (ifaces, listed) ↦ choose-err (keep_v4 ifaces) address name e (rw listed at h)
      ]
