-- ===== src/Cli/Laws.antt =====
-- What the command line promises to the faults.
use lueur.Prelude.{
  String, ℕ, ltb, leb, ◌<◌, ◌≡◌, ◌≢◌, ◌↔◌, true, false, ◌&&◌, Result, ok, err, refl, panic, arith,
}
use mathlib.Core.Path.{subst}
use lueur.Prelude.Float.{Float}
use lueur.Config.FromCli.{from_latency, from_dns, from_http_response}
use lueur.Fault.Dns.{SmallRng, FaultyResolverInjector, resolve}
use lueur.Fault.Dns.Laws.{resolve-panic_iff}
use lueur.Fault.Dns as Dns
use lueur.Fault.HttpError.{apply_on_response}
use lueur.Fault.HttpError.Laws.{apply_on_response-panic_iff}
use lueur.Proxy.Forward.{Response}
use lueur.Types.Direction.{ingress}
use lueur.Types.StreamSide.{server}
use lueur.Types.LatencyDistribution.{normal}
use lueur.Cli.{LatencyOptions, DnsOptions, HttpResponseOptions}
use lueur.Cli.Validators.{
  Parsers, parse_unsigned, positive, validate_positive_f64, validate_non_negative_f64,
  validate_positive_u8, validate_http_status,
}
use lueur.Cli.Options.{
  Clap, option, switch, ◌>>=◌, latency_options, dns_options, http_response_options,
}

then_ok :
    {A B : Type 0} (r : Result A String) (next : A → Result B String) (b : B)
    → (r >>= next) ≡ ok b
    → (a : A) × (r ≡ ok a) × (next a ≡ ok b)
then_ok (err text) next b e = absurd (cc e)
then_ok (ok a) next b e = (a, refl, e)

same_ok : {A : Type 0} (a b : A) → Path (Result A String) (ok a) (ok b) → a ≡ b
same_ok a b e = cc e

module _ (fl : Float) (p : Parsers fl) (c : Clap) where
  open fl use {F, lit, lt, le, of_int, div}

  http_status-range :
      (options : HttpResponseOptions F)
      → http_response_options fl p c ≡ ok options
      → (leb 100 options.http_response_status_code && ltb options.http_response_status_code 1000)
        ≡ true
  unfolding http_response_options option validate_http_status
  http_status-range options e = ground arith

  -- An HTTP fault that the command line sets up never makes the processing of a response panic.
  http_response_options-safe :
      (options : HttpResponseOptions F) (draw : F) (resp : Response)
      → http_response_options fl p c ≡ ok options
      → apply_on_response fl (from_http_response options) draw resp ≢ panic
  unfolding from_http_response
  http_response_options-safe options draw resp e = ground (
    arith,
    http_status-range options e,
    apply_on_response-panic_iff fl (from_http_response options) draw resp,
  )

  dns_rate-range :
      (options : DnsOptions)
      → dns_options fl p c ≡ ok options
      → (0 < options.dns_rate) × (options.dns_rate < 256)
  unfolding dns_options option validate_positive_u8 positive parse_unsigned
  dns_rate-range options e = (ground arith, ground arith)

  abbrev non_negative : String → Result F String
  non_negative field = option fl p c field (lit 20 0) (validate_non_negative_f64 fl p)

  mean-positive :
      (mean : F)
      → lt (lit 0 0) (lit 100 0) ≡ true
      → option fl p c "latency_mean" (lit 100 0) (validate_positive_f64 fl p) ≡ ok mean
      → lt (lit 0 0) mean ≡ true
  unfolding option validate_positive_f64
  mean-positive mean a e = ground arith

  stddev-non_negative :
      (stddev : F)
      → le (lit 0 0) (lit 20 0) ≡ true
      → option fl p c "latency_stddev" (lit 20 0) (validate_non_negative_f64 fl p) ≡ ok stddev
      → le (lit 0 0) stddev ≡ true
  unfolding option validate_non_negative_f64
  stddev-non_negative stddev a e = ground arith

  -- Latency that the command line sets up is global, whether or not that is asked for, and
  -- its mean is positive and its deviation not negative, given that 100 is positive and 20 not negative.
  pub latency_options-global :
      (options : LatencyOptions F)
      → lt (lit 0 0) (lit 100 0) ≡ true
      → le (lit 0 0) (lit 20 0) ≡ true
      → latency_options fl p c ≡ ok options
      → ((from_latency options).global ≡ true)
        × (lt (lit 0 0) (from_latency options).latency_mean ≡ true)
        × (le (lit 0 0) (from_latency options).latency_stddev ≡ true)
  unfolding latency_options switch from_latency
  latency_options-global options a b e =
      let (side, e1, r1) = then_ok (option fl p c "latency_side" server c.side) _ options e in
      let (direction, e2, r2) =
        then_ok (option fl p c "latency_direction" ingress c.direction) _ options r1 in
      let (distribution, e3, r3) =
        then_ok (option fl p c "latency_distribution" normal c.distribution) _ options r2 in
      let (mean, e4, r4) =
        then_ok (option fl p c "latency_mean" (lit 100 0) (validate_positive_f64 fl p)) _ options
          r3 in
      let (stddev, e5, r5) = then_ok (non_negative "latency_stddev") _ options r4 in
      let (shape, e6, r6) = then_ok (non_negative "latency_shape") _ options r5 in
      let (scale, e7, r7) = then_ok (non_negative "latency_scale") _ options r6 in
      let (min, e8, r8) = then_ok (non_negative "latency_min") _ options r7 in
      let (max, e9, r9) = then_ok (non_negative "latency_max") _ options r8 in
      (
        subst (λ (o : LatencyOptions F). o.global ≡ true) (same_ok _ options r9) (ground arith),
        subst (λ (o : LatencyOptions F). lt (lit 0 0) o.latency_mean ≡ true) (same_ok _ options r9)
            (mean-positive mean a e4),
        subst (λ (o : LatencyOptions F). le (lit 0 0) o.latency_stddev ≡ true)
            (same_ok _ options r9) (stddev-non_negative stddev b e5),
      )

  -- A look-up of the DNS fault that the command line sets up panics exactly for the rates over 100, which the
  -- command line accepts up to 255. It is assumed that the generator panics exactly for what is not
  -- between 0 and 1, and that a hundredth of a rate is between them exactly for the rates up to 100.
  pub dns_options-panic_iff :
      {Addrs : Type 0} (rand : SmallRng F) (options : DnsOptions) (rng : rand.R) (now : ℕ)
      (known : Result Addrs String)
      → ((q : F) (r : rand.R)
          → (rand.gen_bool q r ≡ panic) ↔ ((le (lit 0 0) q && le q (lit 1 0)) ≡ false))
      → ((n : ℕ)
          → n < 256
          → (le (lit 0 0) (div (of_int n) (lit 100 0)) && le (div (of_int n) (lit 100 0)) (lit 1 0))
            ≡ leb n 100)
      → dns_options fl p c ≡ ok options
      → (resolve fl rand (Dns.from fl rand (from_dns options) rng) now known ≡ panic)
        ↔ (100 < options.dns_rate)
  unfolding Dns.from from_dns
  dns_options-panic_iff rand options rng now known range percent e =
      let hundredth = div (of_int options.dns_rate) (lit 100 0) in
      ground (
        arith,
        resolve-panic_iff fl rand (Dns.from fl rand (from_dns options) rng) now known,
        range hundredth rng,
        percent options.dns_rate (dns_rate-range options e).1,
        dns_rate-range options e,
      )
