-- ===== src/Nic/Inversion.antt =====
-- What follows from a step of lueur-cli/src/nic.rs that succeeds.
use lueur.Prelude.{
  String, str_eq, eq_iff, ℕ, ◌≡◌, refl, ◌⊎◌, Bool, true, false, not, ◌&&◌, Option, none, some, [],
  ◌∷◌, Result, ok, err, arith, ==_iff, ◌==◌, if◌then◌else◌,
}
use mathlib.Core.Path.{subst}
use lueur.Nic.{
  ◌>>=◌, v4, get_ifindex, ok_or, NicError, Machine, Interfaces, find, is_loopback, parse_proxy,
  proxy_index, named_index, first_index,
}

-- The pair stands among the interfaces.
abbrev pub Listed : String → ℕ → Interfaces → Type 0
Listed name ip [] = ⊥
Listed name ip (iface ∷ rest) = ((iface.0 ≡ name) × (iface.1 ≡ ip)) ⊎ Listed name ip rest

pub find-Listed :
    (test : String × ℕ → Bool) (ifaces : Interfaces) (iface : String × ℕ)
    → find test ifaces ≡ some iface
    → Listed iface.0 iface.1 ifaces × (test iface ≡ true)
unfolding find
find-Listed test [] iface e = cc
find-Listed test (i ∷ is) iface e = ground (arith, find-Listed test is iface)

pub ok_injective : {A : Type 0} {a b : A} → ◌≡◌ {A = Result A NicError} (ok a) (ok b) → a ≡ b
ok_injective e = cc

-- A chain that ends well began well.
pub >>=-eq-ok :
    {A B : Type 0} (first : Result A NicError) (next : A → Result B NicError) {last : B}
    → (first >>= next) ≡ ok last
    → (mid : A) × (first ≡ ok mid) × (next mid ≡ ok last)
>>=-eq-ok (err e) next end = cc
>>=-eq-ok (ok mid) next end = (mid, refl, end)

pub ok_or-eq-ok : {A : Type 0} (o : Option A) (x : NicError) {a : A} → ok_or o x ≡ ok a → o ≡ some a
ok_or-eq-ok none x h = cc
ok_or-eq-ok (some a) x h = cc

pub not-eq-true : {b : Bool} → not b ≡ true → b ≡ false
not-eq-true e = ground arith

pub and-not : {a b : Bool} → (not a && not b) ≡ true → (a ≡ false) × (b ≡ false)
and-not e = ground arith

pub str_eq-symm_false : (a b : String) → str_eq a b ≡ false → str_eq b a ≡ false
str_eq-symm_false a b e = ground (arith, eq_iff a b, eq_iff b a)

pub if-else {ℓ} :
    {A : Type ℓ} {b : Bool} (x y : A) {z : A} → b ≡ false → (if b then x else y) ≡ z → y ≡ z
if-else {b = false} x y e h = h
if-else {b = true} x y e h = cc

pub if-then {ℓ} :
    {A : Type ℓ} {b : Bool} (x y : A) {z : A} → b ≡ true → (if b then x else y) ≡ z → x ≡ z
if-then {b = true} x y e h = h
if-then {b = false} x y e h = cc

module _ (machine : Machine) where
  open machine use {if_nametoindex, parse_socket_addr}

  pub get_ifindex-ok :
      (name : String) {i : ℕ} → get_ifindex machine name ≡ ok i → if_nametoindex name ≡ ok i
  get_ifindex-ok name e = ground arith

  pub proxy_index-ok :
      (ifaces : Interfaces) (ip : ℕ) {on : String × ℕ}
      → proxy_index machine ifaces ip ≡ ok on
      → Listed on.0 ip ifaces × (if_nametoindex on.0 ≡ ok on.1)
  unfolding proxy_index
  proxy_index-ok ifaces ip {on} e =
      let (iface, found, e1) = >>=-eq-ok _ _ e in
      let (idx, index, e2) = >>=-eq-ok _ _ e1 in
      let (listed, test) = find-Listed (λ i. i.1 == ip) ifaces iface (ok_or-eq-ok _ _ found) in
      let same : iface.1 ≡ ip = (==_iff _ _).0 test in
      subst (λ o. Listed o.0 ip ifaces × (if_nametoindex o.0 ≡ ok o.1)) (ok_injective e2)
        (rw same at listed, get_ifindex-ok iface.0 index)

  pub named_index-ok :
      (ifaces : Interfaces) (name : String) {on : String × ℕ}
      → named_index machine ifaces name ≡ ok on
      → (ip : ℕ) × Listed name ip ifaces × (if_nametoindex name ≡ ok on.1)
  unfolding named_index
  named_index-ok ifaces name {on} e =
      let (iface, found, e1) = >>=-eq-ok _ _ e in
      let (idx, index, e2) = >>=-eq-ok _ _ e1 in
      let (listed, test) =
        find-Listed (λ i. str_eq i.0 name) ifaces iface (ok_or-eq-ok _ _ found) in
      let same : iface.0 ≡ name = (eq_iff _ _).0 test in
      (
        iface.1,
        rw same at listed,
        subst (λ o. if_nametoindex name ≡ ok o.1) (ok_injective e2)
            (rw same at (get_ifindex-ok iface.0 index)),
      )

  pub first_index-ok :
      (ifaces : Interfaces) {on : String × ℕ}
      → first_index machine ifaces ≡ ok on
      → (ip : ℕ) × Listed on.0 ip ifaces
        × (is_loopback ip ≡ false)
        × (if_nametoindex on.0 ≡ ok on.1)
  unfolding first_index
  first_index-ok ifaces {on} e =
      let (iface, found, e1) = >>=-eq-ok _ _ e in
      let (idx, index, e2) = >>=-eq-ok _ _ e1 in
      let (listed, test) =
        find-Listed (λ i. not (is_loopback i.1)) ifaces iface (ok_or-eq-ok _ _ found) in
      let off : is_loopback iface.1 ≡ false = not-eq-true test in
      let facts : Listed on.0 iface.1 ifaces × (if_nametoindex on.0 ≡ ok on.1) =
        subst (λ o. Listed o.0 iface.1 ifaces × (if_nametoindex o.0 ≡ ok o.1)) (ok_injective e2)
          (listed, get_ifindex-ok iface.0 index) in
      (iface.1, facts.0, off, facts.1)

  pub parse_proxy-ok :
      (address : String) {proxy : ℕ × ℕ}
      → parse_proxy machine address ≡ ok proxy
      → parse_socket_addr address ≡ ok (v4 proxy.0, proxy.1)
  unfolding parse_proxy
  parse_proxy-ok address {proxy} e = ground arith
