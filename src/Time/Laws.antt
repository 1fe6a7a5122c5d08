-- ===== src/Time/Laws.antt =====
-- What the arithmetic on times computes, and that times are totally ordered.
use Prim.Native.Nat.{Ordering}
use mathlib.Core.Path.{subst}
use ip_noise.Common.{ℕ, ◌*◌, ◌^◌, ◌<◌, ◌≡◌, refl, sym, ◌∙◌, ◌≢◌, true, some, arith}
use ip_noise.Common.Fault.{>>=-eq-some}
use ip_noise.Common.Int.{ℤ, pos, ◌+ℤ◌, ◌*ℤ◌, ◌≤ℤ◌, +ℤ_assoc, scale, fits_int, int_or_fault}
use ip_noise.Model.{Timeval}
use ip_noise.Time.{carry, add_delay, timeval_cmp}

-- Microseconds since the epoch, split in two parts.
abbrev pub micros : ℤ → ℤ → ℤ
micros s u = s *ℤ pos 1000000 +ℤ u

-- The carry keeps the time, and leaves at most 1000000 microseconds.
pub carry_lem :
    (tv : Timeval)
    → (micros (carry tv).sec (carry tv).usec ≡ micros tv.sec tv.usec)
      × ((carry tv).usec ≤ℤ pos 1000000)
unfolding carry ◌+ℤ◌ ◌*ℤ◌
carry_lem tv = (ground arith, ground arith)

-- If it gives a time at all (the product of the delay and 1000 fits an `int`), add_delay gives the
-- time that is `d` milliseconds later.
pub add_delay-micros :
    (tv : Timeval) (d : ℤ) {r : Timeval}
    → add_delay tv d ≡ some r
    → micros r.sec r.usec ≡ micros tv.sec tv.usec +ℤ scale 1000 d
unfolding add_delay ◌+ℤ◌ ◌*ℤ◌ int_or_fault
add_delay-micros tv d {r} h =
    let (u, e, e') = >>=-eq-some (int_or_fault (scale 1000 d)) _ h in
    let q : u ≡ scale 1000 d = ground arith in
    let c : carry (record tv { usec = tv.usec +ℤ u }) ≡ r = cc in
    subst (λ t. micros t.sec t.usec ≡ micros tv.sec tv.usec +ℤ scale 1000 d) c
      ((carry_lem (record tv { usec = tv.usec +ℤ u })).0
        ∙ rw q (sym (+ℤ_assoc (tv.sec *ℤ pos 1000000) tv.usec (scale 1000 d))))

-- If `a` compares as later than `b`, then `b` compares as earlier than `a`.
pub timeval_cmp-flip :
    (a b : Timeval) → timeval_cmp a b ≡ Ordering.gt → timeval_cmp b a ≡ Ordering.lt
unfolding timeval_cmp
timeval_cmp-flip a b h = ground arith

-- The comparison of times is transitive: if `a` is not later than `b`, nor `b` than `c`, then `a`
-- is not later than `c`.
pub timeval_cmp_trans :
    (a b c : Timeval)
    → timeval_cmp a b ≢ Ordering.gt
    → timeval_cmp b c ≢ Ordering.gt
    → timeval_cmp a c ≢ Ordering.gt
unfolding timeval_cmp
timeval_cmp_trans a b c p q = ground arith

-- A delay that is not negative, and whose product fits an `int`, gives a time that is not before.
pub add_delay_later :
    (tv : Timeval) (n : ℕ)
    → n * 1000 < 2 ^ 31
    → (r : Timeval) × (add_delay tv (pos n) ≡ some r) × (timeval_cmp tv r ≢ Ordering.gt)
unfolding add_delay carry ◌+ℤ◌ scale int_or_fault timeval_cmp
add_delay_later tv n h =
    let t : fits_int (pos (n * 1000)) ≡ true = ground arith in rw t (_, refl, ground arith)
