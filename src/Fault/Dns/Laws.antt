-- ===== src/Fault/Dns/Laws.antt =====
-- How often a look-up fails.
use mathlib.Core.Path.{subst}
use lueur.Prelude.{
  String, ℕ, ◌≡◌, ◌↔◌, Bool, Option, some, List, [], ◌∷◌, All, ◌++◌, Result, ok, is_ok, not,
  Run-cases, ◌⊎◌, sym, inl, inr, refl, done, panic, arith,
}
use lueur.Prelude.Float.{Float}
use lueur.Event.{ProxyTaskEvent}
use lueur.Fault.Dns.{
  SmallRng, FaultyResolverInjector, apply_on_request_builder, resolve, should_apply_fault_resolver,
  with_event,
}

-- A look-up of an address that the resolver knows.
pub record Lookup (Addrs : Type 0) : Type 0 where
  pub now : ℕ
  pub known : Addrs

-- A request, whose client makes some look-ups.
pub record Asking (Addrs : Type 0) : Type 0 where
  pub event : ProxyTaskEvent
  pub lookups : List (Lookup Addrs)

module _ (fl : Float) (rand : SmallRng fl.F) where
  open fl use {F}

  pub resolve-panic_iff :
      {Addrs : Type 0} (injector : FaultyResolverInjector fl rand) (now : ℕ)
      (known : Result Addrs String)
      → (resolve fl rand injector now known ≡ panic) ↔ (
          rand.gen_bool (fl.div (fl.of_int injector.settings.dns_rate) (fl.lit 100 0)) injector.rng
          ≡ panic)
  unfolding resolve should_apply_fault_resolver
  resolve-panic_iff injector now known = ground arith

  -- Whether a look-up succeeds; `none` if it panics, which ends the request.
  abbrev pub look_ups :
      {Addrs : Type 0} → FaultyResolverInjector fl rand → List (Lookup Addrs) → List (Option Bool)
  look_ups resolver [] = []
  look_ups resolver (l ∷ ls) = elim (resolve fl rand resolver l.now (ok l.known)) [
    | panic ↦ Option.none ∷ []
    | done looked ↦
        let (resolver', reports, answer) = looked in some (is_ok answer) ∷ look_ups resolver' ls
  ]

  -- The look-ups of requests that one injector meets in turn.
  abbrev pub fates :
      {Addrs : Type 0} → FaultyResolverInjector fl rand → List (Asking Addrs) → List (Option Bool)
  fates injector [] = []
  fates injector (r ∷ rs) =
      let (injector', resolver) = apply_on_request_builder fl rand injector r.event in
      look_ups resolver r.lookups ++ fates injector' rs

  -- What the first draw of the injector's generator makes of a look-up.
  abbrev pub fate : FaultyResolverInjector fl rand → Option Bool
  fate injector =
      elim (rand.gen_bool (fl.div (fl.of_int injector.settings.dns_rate) (fl.lit 100 0))
        injector.rng) [ panic ↦ Option.none | done drawn ↦ some (not drawn.0) ]

  -- A look-up leaves the resolver as it was, so the next one draws the same number.
  look_ups-first :
      {Addrs : Type 0} (resolver : FaultyResolverInjector fl rand) (l : Lookup Addrs)
      (ls : List (Lookup Addrs))
      → (look_ups resolver (l ∷ ls) ≡ fate resolver ∷ [])
        ⊎ (look_ups resolver (l ∷ ls) ≡ fate resolver ∷ look_ups resolver ls)
  unfolding resolve should_apply_fault_resolver
  look_ups-first resolver l ls =
      elim (Run-cases (
        rand.gen_bool (fl.div (fl.of_int resolver.settings.dns_rate) (fl.lit 100 0))
          resolver.rng)) [
            | inl fails ↦ inl (ground (arith, fails))
            | inr (drawn, e) ↦ inr (ground (arith, e))
          ]

  look_ups-fate :
      {Addrs : Type 0} (resolver : FaultyResolverInjector fl rand) (ls : List (Lookup Addrs))
      → All (λ (o : Option Bool). o ≡ fate resolver) (look_ups resolver ls)
  look_ups-fate resolver [] = tt
  look_ups-fate resolver (l ∷ ls) = elim (look_ups-first resolver l ls) [
    | inl ended ↦ subst (All (λ (o : Option Bool). o ≡ fate resolver)) (sym ended) (refl, tt)
    | inr goes_on ↦
        subst (All (λ (o : Option Bool). o ≡ fate resolver)) (sym goes_on)
          (refl, look_ups-fate resolver ls)
  ]

  both : {A : Type 0} (P : A → Type 0) (xs ys : List A) → All P xs → All P ys → All P (xs ++ ys)
  both P [] ys a b = b
  both P (x ∷ xs) ys (p, a) b = (p, both P xs ys a b)

  -- Whatever the rate, all look-ups of known addresses, for all requests that an injector meets, have
  -- the fate that the first draw of its generator decides: each one that is made fails, or none does,
  -- or each panics.
  pub fates_agree :
      {Addrs : Type 0} (injector : FaultyResolverInjector fl rand) (requests : List (Asking Addrs))
      → All (λ (o : Option Bool). o ≡ fate injector) (fates injector requests)
  unfolding apply_on_request_builder with_event
  fates_agree injector [] = tt
  fates_agree injector (r ∷ requests) =
      both (λ (o : Option Bool). o ≡ fate injector) (look_ups _ r.lookups) _
        (look_ups-fate (with_event fl rand injector r.event) r.lookups)
        (fates_agree injector requests)
