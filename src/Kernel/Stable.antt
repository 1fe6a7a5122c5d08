-- ===== src/Kernel/Stable.antt =====
-- The release time of a packet in the kernel build of C/arbitrator/packet_logic.c: the branches under
-- __KERNEL__ at the end of chain_decide. A time is a number of jiffies, an unsigned long of 32 bits.
use native.Mathlib.Nat.{div-le_self, div-mul-le_self, lt-div-mul-add, mul-le-mul_left}
use ip_noise.Common.{
  ℕ, ◌+◌, ◌-◌, ◌*◌, ◌/◌, ◌%◌, ◌^◌, ◌≤◌, ◌<◌, ◌≡◌, refl, ap, ◌∙◌, ◌⊎◌, inl, inr, Bool, true, false,
  Option, none, some, arith, ltb, leb, ◌==◌, if◌then◌else◌, Bool-cases,
}
use ip_noise.Common.Fault.{◌>>=◌}
use ip_noise.Common.Int.{ℤ, pos, wrap32, div_ℤ, scale, int_or_fault, is_neg}
use ip_noise.Kernel.Delayer.{add_jiffies, release_time}
use ip_noise.Kernel.Switcher.Timers.{release_time_fits}

-- `if (chain->last_packet_release_time == 0) chain->last_packet_release_time = tv;`
unfoldable pub kernel_last_release : ℕ → ℕ → ℕ
kernel_last_release last tv = if last == 0 then tv else last

-- `((last_tv - tv) * 1000) / HZ`, which is unsigned, converted to `int`
unfoldable pub wait_between : ℕ → ℕ → ℕ → ℤ
unfolding wrap32
wait_between hz next tv = wrap32 (pos ((next + 2 ^ 32 - tv) % 2 ^ 32 * 1000 % 2 ^ 32 / hz))

-- The delay that brings the release `d` milliseconds after the last one
unfoldable pub kernel_stable_delay : ℕ → ℕ → ℕ → ℤ → Option ℤ
unfolding release_time wait_between
kernel_stable_delay hz last tv d = do
  next ← release_time hz last d
  let wait = wait_between hz next tv
  some (if is_neg wait then pos 0 else wait)

-- What chain_decide does once a delay is chosen and it is known whether the delay is stable, at the time
-- `tv`: the delay, and the release time that the chain keeps
unfoldable pub kernel_schedule : ℕ → Bool → ℕ → ℕ → ℤ → Option (ℤ × ℕ)
unfolding kernel_last_release kernel_stable_delay release_time
kernel_schedule hz stable last_packet_release_time tv d =
    let last = kernel_last_release last_packet_release_time tv in
    do
      wait ← if stable then kernel_stable_delay hz last tv d else some d
      release ← release_time hz tv wait
      some (wait, release)

-- A product that is at most `a`, by less than `hz`
quotient : (a hz : ℕ) → 0 < hz → (w : ℕ) × (a / hz ≡ w) × (w * hz ≤ a) × (a < w * hz + hz)
quotient a hz p = (a / hz, refl, div-mul-le_self a hz, lt-div-mul-add p)

-- The next release is not before the current time.
wait_between-ahead :
    (hz next tv : ℕ)
    → 0 < hz
    → tv ≤ next
    → next < 2 ^ 32
    → (next - tv) * 1000 < 2 ^ 31
    → wait_between hz next tv ≡ pos ((next - tv) * 1000 / hz)
unfolding wait_between wrap32
wait_between-ahead hz next tv p l m b =
    let low : (next + 2 ^ 32 - tv) % 2 ^ 32 * 1000 % 2 ^ 32 ≡ (next - tv) * 1000 =
      omega (arith, l, m, b) in
    let small : (next - tv) * 1000 / hz ≤ (next - tv) * 1000 = div-le_self _ hz in
    rw low (ground (arith, small, b))

-- The next release is before the current time: the difference is taken for a large one.
wait_between-behind :
    (hz next tv : ℕ)
    → 1 < hz
    → next < tv
    → tv < 2 ^ 32
    → tv ≤ next + 2000000
    → wait_between hz next tv ≡ pos ((2 ^ 32 - (tv - next) * 1000) / hz)
unfolding wait_between wrap32
wait_between-behind hz next tv p l m b =
    let low : (next + 2 ^ 32 - tv) % 2 ^ 32 * 1000 % 2 ^ 32 ≡ 2 ^ 32 - (tv - next) * 1000 =
      omega (arith, l, m, b) in
    let (w, e, below, above) = quotient (2 ^ 32 - (tv - next) * 1000) hz (omega arith) in
    let half : w * 2 ≤ w * hz = mul-le-mul_left w p in
    rw (low, e) (ground (arith, half, below, l, b))

-- The delay and the release time that follow from a wait of `w` milliseconds.
release_time_at :
    (hz tv w : ℕ)
    → w * hz < 2 ^ 31
    → release_time hz tv (pos w) ≡ some ((tv + w * hz / 1000) % 2 ^ 32)
unfolding release_time int_or_fault scale div_ℤ add_jiffies
release_time_at hz tv w l = let k : ltb (w * hz) (2 ^ 31) ≡ true = ground (arith, l) in rw k refl

release_time_over : (hz tv w : ℕ) → 2 ^ 31 ≤ w * hz → release_time hz tv (pos w) ≡ none
unfolding release_time int_or_fault scale
release_time_over hz tv w l = let k : ltb (w * hz) (2 ^ 31) ≡ false = ground (arith, l) in rw k refl

-- The packet waits until `next`, or a jiffy less.
pub record IsKept (next : ℕ) (run : Option (ℤ × ℕ)) : Type 0 where
  pub wait : ℕ
  pub release : ℕ
  pub runs : run ≡ some (pos wait, release)
  pub not_after : release ≤ next
  pub not_long_before : next ≤ release + 1

module _ (hz last tv n : ℕ) (h : 1 < hz) (k : hz ≤ 1000) (l : n * 1000 < 2 ^ 31) (m : 0 < last)
    (t : tv < 2 ^ 32) where
  -- When the packet is to be released
  abbrev next_release : ℕ
  next_release = last + n * hz / 1000

  kernel_stable_delay_lem :
      next_release < 2 ^ 32
      → (w : ℕ) → wait_between hz next_release tv ≡ pos w
      → kernel_stable_delay hz last tv (pos n) ≡ some (pos w)
  unfolding kernel_stable_delay
  kernel_stable_delay_lem b w e =
      let r = release_time_fits hz last n k l in
      let low : (last + n * hz / 1000) % 2 ^ 32 ≡ last + n * hz / 1000 = omega (arith, b) in
      rw (r, low, e) refl

  schedule_ahead :
      next_release < 2 ^ 32
      → tv ≤ next_release
      → next_release ≤ tv + 2000000
      → IsKept next_release (kernel_schedule hz true last tv (pos n))
  unfolding kernel_schedule kernel_last_release
  schedule_ahead b c d =
      let jiffies = next_release - tv in
      let (w, e, below, above) = quotient (jiffies * 1000) hz (omega (arith, h)) in
      let far : jiffies * 1000 < 2 ^ 31 = omega (arith, d) in
      let ahead = wait_between-ahead hz next_release tv (omega (arith, h)) c b far in
      let delays = kernel_stable_delay_lem b w (ahead ∙ ap pos e) in
      let fits : w * hz < 2 ^ 31 = omega (arith, below, far) in
      let started : (last == 0) ≡ false = ground (arith, m) in
      let r = release_time_at hz tv w fits in
      record {
        wait = w;
        release = (tv + w * hz / 1000) % 2 ^ 32;
        runs = rw (started, delays, r) refl;
        not_after = omega (arith, below, b, c);
        not_long_before = omega (arith, above, below, b, c, k);
      }

  schedule_behind :
      next_release < tv
      → tv ≤ next_release + 2000000
      → (kernel_stable_delay hz last tv (pos n)
          ≡ some (pos ((2 ^ 32 - (tv - next_release) * 1000) / hz)))
        × (kernel_schedule hz true last tv (pos n) ≡ none)
  unfolding kernel_schedule kernel_last_release
  schedule_behind c d =
      let (w, e, below, above) =
        quotient (2 ^ 32 - (tv - next_release) * 1000) hz (omega (arith, h)) in
      let delays =
        kernel_stable_delay_lem (omega (arith, c, t)) _
          (wait_between-behind hz next_release tv h c t d) in
      let over : 2 ^ 31 ≤ w * hz = omega (arith, above, d, k) in
      let started : (last == 0) ≡ false = ground (arith, m) in
      let r = release_time_over hz tv w over in (delays, rw (started, delays, e, r) refl)

  -- In the kernel build, for HZ from 2 to 1000, a stable delay that fits an int in microseconds
  -- and a last release time that is set: if the next release is not before the current time, by at
  -- most 2000000 jiffies, chain_decide returns a delay, and the release time that the chain keeps
  -- is the next one or one jiffy before it; if the next release is before the current time, by at
  -- most 2000000 jiffies, the difference is unsigned, the delay is not 0 but 2 ^ 32 less a
  -- thousand times the difference, divided by HZ, and the product for the release time overflows
  -- an int. Times are below 2 ^ 32.
  pub kernel_schedule-stable :
      next_release < 2 ^ 32
      → next_release ≤ tv + 2000000
      → tv ≤ next_release + 2000000
      → ((tv ≤ next_release) × IsKept next_release (kernel_schedule hz true last tv (pos n)))
        ⊎ ((next_release < tv)
            × (kernel_stable_delay hz last tv (pos n)
                ≡ some (pos ((2 ^ 32 - (tv - next_release) * 1000) / hz)))
            × (kernel_schedule hz true last tv (pos n) ≡ none))
  kernel_schedule-stable b c d = elim (Bool-cases (leb tv next_release)) [
    | inl q ↦ let e : tv ≤ next_release = ground (arith, q) in inl (e, schedule_ahead b e c)
    | inr q ↦
        let e : next_release < tv = ground (arith, q) in
        (let r = schedule_behind e d in inr (e, r.0, r.1))
  ]
