-- ===== src/Main/Command/Chosen.antt =====
-- What the options of `run` choose: the faults, field by field, and the injectors of these faults.
use lueur.Prelude.{◌≡◌, refl, ap, ◌∙◌, Bool, true, false, List, [], ◌∷◌, ◌++◌, if◌then◌else◌}
use lueur.Types.Direction.{egress}
use lueur.Cli.{RunCommandOptions}
use lueur.Config.{
  FaultConfig, LatencySettings, BandwidthSettings, DnsSettings, JitterSettings, PacketLossSettings,
  PacketDuplicationSettings, HttpResponseSettings,
}
use lueur.Config.FromCli.{from}
use lueur.Plugin.{Http, FaultInjector, Injectors, load_injectors}

abbrev pub when : {A : Type 0} → Bool → List A → List A
when true xs = xs
when false xs = []

module _ {F : Type 0} (o : RunCommandOptions F) where
  abbrev pub latency_chosen : LatencySettings F
  latency_chosen = record {
    distribution = o.latency.latency_distribution;
    direction = o.latency.latency_direction;
    global = o.latency.global;
    side = o.latency.side;
    latency_mean = o.latency.latency_mean;
    latency_stddev = o.latency.latency_stddev;
    latency_shape = o.latency.latency_shape;
    latency_scale = o.latency.latency_scale;
    latency_min = o.latency.latency_min;
    latency_max = o.latency.latency_max;
  }

  abbrev pub bandwidth_chosen : BandwidthSettings
  bandwidth_chosen = record {
    direction = o.bandwidth.bandwidth_direction;
    side = o.bandwidth.side;
    bandwidth_rate = o.bandwidth.bandwidth_rate;
    bandwidth_unit = o.bandwidth.bandwidth_unit;
  }

  abbrev pub dns_chosen : DnsSettings
  dns_chosen = record { direction = egress; dns_rate = o.dns.dns_rate }

  abbrev pub jitter_chosen : JitterSettings F
  jitter_chosen = record {
    direction = o.jitter.jitter_direction;
    jitter_amplitude = o.jitter.jitter_amplitude;
    jitter_frequency = o.jitter.jitter_frequency;
  }

  abbrev pub loss_chosen : PacketLossSettings
  loss_chosen = record {
    direction = o.packet_loss.packet_loss_direction;
    side = o.packet_loss.side;
  }

  abbrev pub duplication_chosen : PacketDuplicationSettings F
  duplication_chosen = record {
    direction = o.packet_duplication.packet_duplication_direction;
    packet_duplication_probability = o.packet_duplication.packet_duplication_probability;
  }

  abbrev pub http_chosen : HttpResponseSettings F
  http_chosen = record {
    http_response_status_code = o.http_error.http_response_status_code;
    http_response_body = o.http_error.http_response_body;
    http_response_trigger_probability = o.http_error.http_response_trigger_probability;
  }

  -- The faults that are enabled, in the order of this list.
  abbrev pub faults_chosen : List (FaultConfig F)
  faults_chosen =
      when o.latency.enabled (FaultConfig.latency latency_chosen ∷ [])
      ++ (when o.bandwidth.enabled (FaultConfig.bandwidth bandwidth_chosen ∷ [])
          ++ (when o.dns.enabled (FaultConfig.dns dns_chosen ∷ [])
              ++ (when o.jitter.enabled (FaultConfig.jitter jitter_chosen ∷ [])
                  ++ (when o.packet_loss.enabled (FaultConfig.packet_loss loss_chosen ∷ [])
                      ++ (when o.packet_duplication.enabled
                            (FaultConfig.packet_duplication duplication_chosen ∷ [])
                          ++ (when o.http_error.enabled (FaultConfig.http_error http_chosen ∷ [])
                              ++ []))))))

  pushed :
      (enabled : Bool) (fault : FaultConfig F) {l l' : List (FaultConfig F)}
      → l ≡ l'
      → (if enabled then fault ∷ l else l) ≡ when enabled (fault ∷ []) ++ l'
  pushed true fault e = ap (λ (l : List (FaultConfig F)). fault ∷ l) e
  pushed false fault e = e

  pub from-faults : (from o).faults ≡ faults_chosen
  unfolding from
  from-faults = pushed o.latency.enabled (FaultConfig.latency latency_chosen) (
      pushed o.bandwidth.enabled (FaultConfig.bandwidth bandwidth_chosen) (
        pushed o.dns.enabled (FaultConfig.dns dns_chosen) (
          pushed o.jitter.enabled (FaultConfig.jitter jitter_chosen) (
            pushed o.packet_loss.enabled (FaultConfig.packet_loss loss_chosen) (
              pushed o.packet_duplication.enabled
                (FaultConfig.packet_duplication duplication_chosen)
                (pushed o.http_error.enabled (FaultConfig.http_error http_chosen) refl))))))

  module _ (h : Http) (i : Injectors h F) where
    -- The injectors of these faults. Packet duplication has none.
    abbrev pub injectors_chosen : List (FaultInjector h)
    injectors_chosen =
        when o.latency.enabled (i.of_latency latency_chosen ∷ [])
        ++ (when o.bandwidth.enabled (i.of_bandwidth bandwidth_chosen ∷ [])
            ++ (when o.dns.enabled (i.of_dns dns_chosen ∷ [])
                ++ (when o.jitter.enabled (i.of_jitter jitter_chosen ∷ [])
                    ++ (when o.packet_loss.enabled (i.of_packet_loss loss_chosen ∷ [])
                        ++ (when o.http_error.enabled (i.of_http_error http_chosen ∷ []) ++ [])))))

    abbrev loaded : List (FaultConfig F) → List (FaultInjector h)
    loaded faults = load_injectors h i (record { faults = faults })

    added :
        (enabled : Bool) (fault : FaultConfig F) (x : FaultInjector h) (l : List (FaultConfig F))
        {ys : List (FaultInjector h)}
        → loaded (fault ∷ l) ≡ x ∷ loaded l
        → loaded l ≡ ys
        → loaded (when enabled (fault ∷ []) ++ l) ≡ when enabled (x ∷ []) ++ ys
    added true fault x l one e = one ∙ ap (λ (xs : List (FaultInjector h)). x ∷ xs) e
    added false fault x l one e = e

    skipped :
        (enabled : Bool) (l : List (FaultConfig F)) {ys : List (FaultInjector h)}
        → loaded l ≡ ys
        → loaded (when enabled (FaultConfig.packet_duplication duplication_chosen ∷ []) ++ l) ≡ ys
    unfolding load_injectors
    skipped true l e = e
    skipped false l e = e

    pub load_injectors-from : load_injectors h i (from o) ≡ injectors_chosen
    unfolding load_injectors
    load_injectors-from =
        ap loaded from-faults
        ∙ added o.latency.enabled (FaultConfig.latency latency_chosen) (i.of_latency latency_chosen)
            _ refl
            (added o.bandwidth.enabled (FaultConfig.bandwidth bandwidth_chosen)
              (i.of_bandwidth bandwidth_chosen) _ refl
              (added o.dns.enabled (FaultConfig.dns dns_chosen) (i.of_dns dns_chosen) _ refl (
                added o.jitter.enabled (FaultConfig.jitter jitter_chosen)
                  (i.of_jitter jitter_chosen) _ refl
                  (added o.packet_loss.enabled (FaultConfig.packet_loss loss_chosen)
                    (i.of_packet_loss loss_chosen) _ refl
                    (skipped o.packet_duplication.enabled _ (
                      added o.http_error.enabled (FaultConfig.http_error http_chosen)
                        (i.of_http_error http_chosen) _ refl refl))))))
