-- ===== src/Cli/Options.antt =====
-- How the options of a fault are made from the arguments, by the attributes of their fields in
-- lueur-cli/src/cli.rs.
use lueur.Prelude.{String, Bool, true, false, ◌||◌, Option, none, some, Result, ok, err}
use lueur.Prelude.Float.{Float}
use lueur.Types.Direction.{Direction, ingress}
use lueur.Types.StreamSide.{StreamSide, server}
use lueur.Types.LatencyDistribution.{LatencyDistribution, normal}
use lueur.Types.BandwidthUnit.{BandwidthUnit, bps}
use lueur.Cli.{
  LatencyOptions, BandwidthOptions, JitterOptions, DnsOptions, PacketLossOptions,
  PacketDuplicationOptions, HttpResponseOptions,
}
use lueur.Cli.Validators.{
  Parsers, validate_positive_f64, validate_non_negative_f64, validate_positive_u8,
  validate_positive_usize, validate_probability, validate_http_status,
}

-- What `clap` found: the text of an option, if it was given, and whether a flag was; and the readers
-- of the enumerations that derive `ValueEnum`.
pub record Clap : Type 0 where
  pub value : (field : String) → Option String
  pub flag : (field : String) → Bool
  pub direction : String → Result Direction String
  pub side : String → Result StreamSide String
  pub distribution : String → Result LatencyDistribution String
  pub unit : String → Result BandwidthUnit String

infixl 5 ◌>>=◌
abbrev pub ◌>>=◌ : {A B : Type 0} → Result A String → (A → Result B String) → Result B String
err text >>= next = err text
ok value >>= next = next value

module _ (fl : Float) (p : Parsers fl) (c : Clap) where
  open fl use {F, lit}

  unfoldable pub option :
      {A : Type 0} → (field : String) (default : A) → (String → Result A String) → Result A String
  option field default parser = elim (c.value field) [ none ↦ ok default | some text ↦ parser text ]

  -- A flag is true if it is given, and has its default otherwise.
  unfoldable pub switch : (field : String) (default : Bool) → Bool
  switch field default = c.flag field || default

  unfoldable pub latency_options : Result (LatencyOptions F) String
  unfolding option switch
  latency_options = do
    side ← option "latency_side" server c.side
    direction ← option "latency_direction" ingress c.direction
    distribution ← option "latency_distribution" normal c.distribution
    mean ← option "latency_mean" (lit 100 0) (validate_positive_f64 fl p)
    stddev ← option "latency_stddev" (lit 20 0) (validate_non_negative_f64 fl p)
    shape ← option "latency_shape" (lit 20 0) (validate_non_negative_f64 fl p)
    scale ← option "latency_scale" (lit 20 0) (validate_non_negative_f64 fl p)
    min ← option "latency_min" (lit 20 0) (validate_non_negative_f64 fl p)
    max ← option "latency_max" (lit 20 0) (validate_non_negative_f64 fl p)
    ok (record {
      enabled = switch "latency_enabled" false;
      global = switch "latency_global" true;
      side = side;
      latency_direction = direction;
      latency_distribution = distribution;
      latency_mean = mean;
      latency_stddev = stddev;
      latency_shape = shape;
      latency_scale = scale;
      latency_min = min;
      latency_max = max;
    })

  unfoldable pub bandwidth_options : Result BandwidthOptions String
  unfolding option switch
  bandwidth_options = do
    side ← option "bandwidth_side" server c.side
    direction ← option "bandwidth_direction" ingress c.direction
    rate ← option "bandwidth_rate" 1000 (validate_positive_usize fl p)
    unit ← option "bandwidth_unit" bps c.unit
    ok (record {
      enabled = switch "bandwidth_enabled" false;
      side = side;
      bandwidth_direction = direction;
      bandwidth_rate = rate;
      bandwidth_unit = unit;
    })

  unfoldable pub jitter_options : Result (JitterOptions F) String
  unfolding option switch
  jitter_options = do
    direction ← option "jitter_direction" ingress c.direction
    amplitude ← option "jitter_amplitude" (lit 20 0) (validate_non_negative_f64 fl p)
    frequency ← option "jitter_frequency" (lit 5 0) (validate_non_negative_f64 fl p)
    ok (record {
      enabled = switch "jitter_enabled" false;
      jitter_direction = direction;
      jitter_amplitude = amplitude;
      jitter_frequency = frequency;
    })

  unfoldable pub dns_options : Result DnsOptions String
  unfolding option switch
  dns_options = do
    rate ← option "dns_rate" 50 (validate_positive_u8 fl p)
    ok (record { enabled = switch "dns_enabled" false; dns_rate = rate })

  unfoldable pub packet_loss_options : Result PacketLossOptions String
  unfolding option switch
  packet_loss_options = do
    side ← option "packet_loss_side" server c.side
    direction ← option "packet_loss_direction" ingress c.direction
    ok (record {
      enabled = switch "packet_loss_enabled" false;
      side = side;
      packet_loss_direction = direction;
    })

  unfoldable pub packet_duplication_options : Result (PacketDuplicationOptions F) String
  unfolding option switch
  packet_duplication_options = do
    direction ← option "packet_duplication_direction" ingress c.direction
    probability ← option "packet_duplication_probability" (lit 1 1) (validate_probability fl p)
    ok (record {
      enabled = switch "packet_duplication_enabled" false;
      packet_duplication_direction = direction;
      packet_duplication_probability = probability;
    })

  unfoldable pub http_response_options : Result (HttpResponseOptions F) String
  unfolding option switch
  http_response_options = do
    code ← option "http_response_status_code" 500 (validate_http_status fl p)
    probability ← option "http_response_trigger_probability" (lit 1 0) (validate_probability fl p)
    ok (record {
      enabled = switch "http_response_enabled" false;
      http_response_status_code = code;
      http_response_body = c.value "http_response_body";
      http_response_trigger_probability = probability;
    })
