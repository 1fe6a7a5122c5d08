-- ===== src/Packet/Info.antt =====
-- get_packet_info of C/arbitrator/packet_logic.c.
use ip_noise.Common.{
  ℕ, ◌+◌, ◌*◌, ◌^◌, List, Option, none, some, Bool, ◌||◌, get_elem?, ◌==◌, if◌then◌else◌,
}
use ip_noise.Common.Fault.{◌>>=◌}

-- ip_noise_packet_info_t. A port is `none` where the code has -1.
pub record PacketInfo : Type 0 where
  pub source_ip : ℕ
  pub dest_ip : ℕ
  pub tos : ℕ
  pub protocol : ℕ
  pub length : ℕ
  pub source_port : Option ℕ
  pub dest_port : Option ℕ

-- `(p[i] << 8) | p[i + 1]`
unfoldable pub read_be16 : List ℕ → ℕ → Option ℕ
read_be16 p i = do hi ← get_elem? p i; lo ← get_elem? p (i + 1); some (hi * 256 + lo)

-- The address in the four bytes from `p[i]`, as the number that is_in_ip_filter makes of it.
unfoldable pub read_ip : List ℕ → ℕ → Option ℕ
read_ip p i = do
  a ← get_elem? p i
  b ← get_elem? p (i + 1)
  c ← get_elem? p (i + 2)
  d ← get_elem? p (i + 3)
  some (a * 2 ^ 24 + b * 2 ^ 16 + c * 2 ^ 8 + d)

unfoldable pub has_ports : ℕ → Bool
has_ports protocol = protocol == 6 || protocol == 17

-- A port of the packet, if it has ports.
unfoldable pub read_port : Bool → List ℕ → ℕ → Option (Option ℕ)
unfolding read_be16
read_port b p i =
    let ported : Option (Option ℕ) = (do port ← read_be16 p i; some (some port)) in
    if b then ported else some none

unfoldable pub get_packet_info : List ℕ → Option PacketInfo
unfolding read_be16 read_ip has_ports read_port
get_packet_info payload = do
  protocol ← get_elem? payload 9
  source_ip ← read_ip payload 12
  dest_ip ← read_ip payload 16
  len ← read_be16 payload 2
  tos ← get_elem? payload 1
  source_port ← read_port (has_ports protocol) payload 20
  dest_port ← read_port (has_ports protocol) payload 22
  some (record {
    source_ip = source_ip;
    dest_ip = dest_ip;
    tos = tos;
    protocol = protocol;
    length = len;
    source_port = source_port;
    dest_port = dest_port;
  })
