-- ===== src/Mask.antt =====
-- The bit masks of a chain's filter: how C/arbitrator/packet_logic.c tests them and how the handlers
-- set_protocol and set_tos of C/arbitrator/iface_handlers.c change them.
pub mod Laws
use Prim.Native.Nat.{bit_and, bit_or}
use ip_noise.Common.{
  ℕ, ◌-◌, ◌/◌, ◌%◌, ◌^◌, Bool, not, Option, some, List, leb, ◌==◌, if◌then◌else◌, length, get_elem?,
  set, get_or, replicate,
}
use ip_noise.Common.Fault.{◌>>=◌}

-- `mask[offset >> 3] & (1 << (offset & 7))`: a read outside of the mask is a fault.
unfoldable pub test_mask : List ℕ → ℕ → Option Bool
test_mask mask offset = do
  byte ← get_elem? mask (offset / 8)
  some (not (bit_and byte (2 ^ (offset % 8)) == 0))

-- `byte |= (1 << bit)` or `byte &= ~(1 << bit)`
unfoldable pub change_bit : ℕ → ℕ → Bool → ℕ
change_bit byte bit enable = if enable then bit_or byte (2 ^ bit) else bit_and byte (255 - 2 ^ bit)

-- An index past the mask sets or clears all of it (`memset`); else one bit is changed.
unfoldable pub change_mask : List ℕ → ℕ → Bool → List ℕ
unfolding change_bit
change_mask mask index enable =
    if leb (length mask) (index / 8)
    then replicate (length mask) (if enable then 255 else 0)
    else set mask (index / 8) (change_bit (get_or mask (index / 8) 0) (index % 8) enable)
