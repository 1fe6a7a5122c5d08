-- ===== src/Packet/Filter.antt =====
-- is_in_ip_filter and is_in_chain_filter of C/arbitrator/packet_logic.c.
pub mod Laws
pub mod Chain
use ip_noise.Common.{
  ℕ, Bool, true, false, not, ◌&&◌, Option, none, some, List, [], ◌∷◌, leb, ◌==◌, if◌then◌else◌,
  length,
}
use ip_noise.Common.Fault.{◌>>=◌, shr32}
use ip_noise.Mask.{test_mask}
use ip_noise.Model.{
  PortRange, IpSpec, IpFilter, dont_care, gt, lt, between, not_between, ChainFilter,
}
use ip_noise.Packet.Info.{PacketInfo}

-- The loop over `port_ranges`.
unfoldable pub in_port_ranges : List PortRange → ℕ → Bool
in_port_ranges [] port = false
in_port_ranges (r ∷ rs) port =
    let rest = in_port_ranges rs port in if leb r.start port && leb port r.end then true else rest

-- The test that follows a match of the addresses.
unfoldable pub port_matches : IpSpec → Option ℕ → Bool
port_matches spec none = true
port_matches spec (some port) = in_port_ranges spec.port_ranges port

-- The `while` over the components of the filter. A component whose fields were never set is
-- compared with indeterminate values.
unfoldable pub match_specs : IpFilter → ℕ → Option ℕ → Option Bool
match_specs [] ip port = some false
match_specs (none ∷ specs) ip port = none
match_specs (some spec ∷ specs) ip port =
    let rest = match_specs specs ip port in
    do
      a ← shr32 spec.ip spec.net_mask
      b ← shr32 ip spec.net_mask
      if a == b && port_matches spec port then some true else rest

unfoldable pub is_in_ip_filter : IpFilter → ℕ → Option ℕ → Option Bool
unfolding match_specs port_matches in_port_ranges
is_in_ip_filter [] ip port = some true
is_in_ip_filter specs ip port = match_specs specs ip port

-- The switch on which_packet_len.
unfoldable pub length_fits : ChainFilter → ℕ → Bool
length_fits f len = elim f.which_packet_len [
  | dont_care ↦ true
  | gt ↦ leb f.min_packet_len len
  | lt ↦ leb len f.max_packet_len
  | between ↦ leb len f.max_packet_len && leb f.min_packet_len len
  | not_between ↦ not (leb len f.max_packet_len && leb f.min_packet_len len)
]

unfoldable pub is_in_chain_filter : ChainFilter → PacketInfo → Option Bool
unfolding length_fits
is_in_chain_filter f p = do
  source ← is_in_ip_filter f.source p.source_ip p.source_port
  if not source then some false else do
    dest ← is_in_ip_filter f.dest p.dest_ip p.dest_port
    if not dest then some false else do
      tos ← test_mask f.tos p.tos
      if not tos then some false else do
        protocol ← test_mask f.protocols p.protocol
        if not protocol then some false else some (length_fits f p.length)
