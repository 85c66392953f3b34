-- ===== src/Types/BandwidthUnit.antt =====
-- `BandwidthUnit` of lueur-cli/src/types.rs. `usize` has 64 bits, and the product wraps round as in
-- a release build.
use lueur.Prelude.{String, ℕ, ◌*◌, ◌%◌, ◌^◌}

pub data BandwidthUnit : Type 0 where
  bps kbps mbps gbps : BandwidthUnit

unfoldable pub display : BandwidthUnit → String
display bps = "Bps"
display kbps = "KBps"
display mbps = "MBps"
display gbps = "GBps"

abbrev pub wrap_usize : ℕ → ℕ
wrap_usize n = n % 2 ^ 64

unfoldable pub to_bytes_per_second : BandwidthUnit → ℕ → ℕ
to_bytes_per_second bps rate = rate
to_bytes_per_second kbps rate = wrap_usize (rate * 1_000)
to_bytes_per_second mbps rate = wrap_usize (rate * 1_000_000)
to_bytes_per_second gbps rate = wrap_usize (rate * 1_000_000_000)

abbrev default : BandwidthUnit
default = bps
