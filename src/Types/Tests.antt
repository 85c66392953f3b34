-- ===== src/Types/Tests.antt =====
-- Words read as distributions, and descriptions of faults.
use lueur.Prelude.{◌≡◌, ◌↔◌, ◌&&◌, refl, false, none, ℕ, done, panic, ok}
use lueur.Prelude.Fixed.{thousandths}
use lueur.Types.Direction
use lueur.Config.{FaultConfig}
use lueur.Types.FaultConfiguration.{FaultConfiguration, packet_loss, dns, build}
use lueur.Types.FaultConfiguration.Laws.{direction_known, distribution_known, build-panic_iff}

abbrev lost : FaultConfiguration ℕ
lost = packet_loss "multistatemarkov" 10 "sideways" none

build-panic_iff_example : (build thousandths (λ s. s) lost ≡ panic) ↔ (
    (direction_known thousandths (λ s. s) lost && distribution_known thousandths (λ s. s) lost)
    ≡ false)
build-panic_iff_example = build-panic_iff thousandths (λ s. s) lost

abbrev resolving : FaultConfiguration ℕ
resolving = dns 50 "egress"

abbrev resolves : FaultConfig ℕ
resolves = FaultConfig.dns (record { direction = Direction.egress; dns_rate = 50 })

resolving_built : build thousandths (λ s. s) resolving ≡ done (ok resolves)
unfolding build Direction.from_str
resolving_built = refl
