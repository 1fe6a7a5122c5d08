-- ===== src/Time.antt =====
-- The arithmetic on `struct timeval` that packet_logic.c, delayer.c and switcher.c of C/arbitrator each
-- write out, and the comparison ip_noise_timeval_cmp of delayer.c and switcher.c.
pub mod Laws
use Prim.Native.Nat.{Ordering}
use ip_noise.Common.{ℕ, ◌%◌, ◌/◌, Option, some, Bool, if◌then◌else◌}
use ip_noise.Common.Int.{ℤ, pos, pos_part, ◌+ℤ◌, ltb_ℤ, scale, int_or_fault}
use ip_noise.Common.Fault.{◌>>=◌}
use ip_noise.Model.{Timeval}

-- `if (tv.tv_usec > 1000000) { tv.tv_sec += tv.tv_usec / 1000000; tv.tv_usec %= 1000000; }`
unfoldable pub carry : Timeval → Timeval
unfolding ◌+ℤ◌
carry tv =
    if ltb_ℤ (pos 1000000) tv.usec
    then record {
      sec = tv.sec +ℤ pos (pos_part tv.usec / 1000000);
      usec = pos (pos_part tv.usec % 1000000);
    }
    else tv

-- `tv.tv_usec += delay * 1000;` and the carry. The product is computed in `int`.
unfoldable pub add_delay : Timeval → ℤ → Option Timeval
unfolding carry scale int_or_fault ◌+ℤ◌
add_delay tv delay = do
  usec ← int_or_fault (scale 1000 delay)
  some (carry (record tv { usec = tv.usec +ℤ usec }))

-- The sign of ip_noise_timeval_cmp.
unfoldable pub timeval_cmp : Timeval → Timeval → Ordering
timeval_cmp a b =
    if ltb_ℤ b.sec a.sec
    then Ordering.gt
    else if ltb_ℤ a.sec b.sec
    then Ordering.lt
    else if ltb_ℤ b.usec a.usec
    then Ordering.gt
    else if ltb_ℤ a.usec b.usec
    then Ordering.lt
    else Ordering.eq
