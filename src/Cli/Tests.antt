-- ===== src/Cli/Tests.antt =====
-- Arguments at which the theorems about the options are tried out.
use lueur.Prelude.{
  String, str_eq, ℕ, ltb, leb, ◌<◌, ◌≡◌, ◌↔◌, refl, true, false, ◌&&◌, none, some, Result, ok, done,
  panic, arith, if◌then◌else◌,
}
use lueur.Prelude.Fixed.{thousandths}
use lueur.Types.Direction.{ingress}
use lueur.Types.StreamSide.{server}
use lueur.Types.LatencyDistribution.{normal}
use lueur.Types.BandwidthUnit.{bps}
use lueur.Config.FromCli.{from_dns}
use lueur.Fault.Dns.{SmallRng, resolve}
use lueur.Fault.Dns as Dns
use lueur.Cli.{LatencyOptions, DnsOptions, HttpResponseOptions}
use lueur.Cli.Validators.{
  Parsers, validate_positive_u8, positive, parse_unsigned, validate_http_status,
}
use lueur.Cli.Options.{Clap, option, switch, latency_options, dns_options, http_response_options}
use lueur.Cli.Laws.{dns_options-panic_iff}

-- The numbers 150 and 503.
abbrev two_numbers : Parsers thousandths
two_numbers = record {
  parse_f64 = λ text. none;
  parse_nat = λ text.
      if str_eq text "150" then some 150 else (if str_eq text "503" then some 503 else none);
}

-- `--dns-rate 150 --http-status 503`
abbrev given : Clap
given = record {
  value = λ field.
      if str_eq field "dns_rate"
      then some "150"
      else (if str_eq field "http_response_status_code" then some "503" else none);
  flag = λ field. false;
  direction = λ text. ok ingress;
  side = λ text. ok server;
  distribution = λ text. ok normal;
  unit = λ text. ok bps;
}

abbrev dns_150 : DnsOptions
dns_150 = record { enabled = false; dns_rate = 150 }

parsed_dns : dns_options thousandths two_numbers given ≡ ok dns_150
unfolding dns_options option switch validate_positive_u8 positive parse_unsigned
parsed_dns = refl

abbrev http_503 : HttpResponseOptions ℕ
http_503 = record {
  enabled = false;
  http_response_status_code = 503;
  http_response_body = none;
  http_response_trigger_probability = 1000;
}

parsed_http : http_response_options thousandths two_numbers given ≡ ok http_503
unfolding http_response_options option switch validate_http_status parse_unsigned
parsed_http = refl

abbrev usual : LatencyOptions ℕ
usual = record {
  enabled = false;
  global = true;
  side = server;
  latency_direction = ingress;
  latency_distribution = normal;
  latency_mean = 100_000;
  latency_stddev = 20_000;
  latency_shape = 20_000;
  latency_scale = 20_000;
  latency_min = 20_000;
  latency_max = 20_000;
}

parsed_latency : latency_options thousandths two_numbers given ≡ ok usual
unfolding latency_options option switch
parsed_latency = refl

-- A generator that knows its probabilities.
abbrev careful : SmallRng ℕ
careful = record { R = ℕ; gen_bool = λ q r. if leb q 1000 then done (ltb r q, r) else panic }

careful_range : (q r : ℕ) → (careful.gen_bool q r ≡ panic) ↔ ((leb 0 q && leb q 1000) ≡ false)
careful_range q r = ground arith

hundredth :
    (n : ℕ)
    → n < 256
    → (leb 0 (thousandths.div (thousandths.of_int n) (thousandths.lit 100 0))
        && leb (thousandths.div (thousandths.of_int n) (thousandths.lit 100 0)) 1000)
      ≡ leb n 100
hundredth n h = ground arith

abbrev known : Result ℕ String
known = ok 8

dns_options-panic_iff_example :
    (resolve thousandths careful (Dns.from thousandths careful (from_dns dns_150) 7) 1 known
      ≡ panic)
    ↔ (100 < 150)
dns_options-panic_iff_example =
    dns_options-panic_iff thousandths two_numbers given careful dns_150 7 1 known careful_range
      hundredth parsed_dns
