-- ===== src/Packet/Filter/Chain.antt =====
-- Which packets the filter of a chain lets in.
use ip_noise.Common.{ℕ, ◌≤◌, ◌<◌, ◌⊎◌, length}
use ip_noise.Mask.Laws.{HasBit}
use ip_noise.Model.{dont_care, gt, lt, between, not_between, ChainFilter}
use ip_noise.Packet.Filter.Laws.{Allows}
use ip_noise.Packet.Info.{PacketInfo}

-- The lengths that a filter lets in.
abbrev pub LengthFits : ChainFilter → ℕ → Type 0
LengthFits f n = elim f.which_packet_len [
  | dont_care ↦ Unit {0}
  | gt ↦ f.min_packet_len ≤ n
  | lt ↦ n ≤ f.max_packet_len
  | between ↦ (n ≤ f.max_packet_len) × (f.min_packet_len ≤ n)
  | not_between ↦ (f.max_packet_len < n) ⊎ (n < f.min_packet_len)
]

-- What is_in_chain_filter is to decide.
pub record Passes (f : ChainFilter) (p : PacketInfo) : Type 0 where
  pub source : Allows f.source p.source_ip p.source_port
  pub dest : Allows f.dest p.dest_ip p.dest_port
  pub tos : HasBit f.tos p.tos
  pub protocol : HasBit f.protocols p.protocol
  pub length : LengthFits f p.length
