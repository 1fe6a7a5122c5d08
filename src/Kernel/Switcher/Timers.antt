-- ===== src/Kernel/Switcher/Timers.antt =====
-- The timers of the chains are started and deleted.
use native.Mathlib.Nat.{mul-le-mul_left}
use ip_noise.Common.{
  ℕ, zero, suc, ◌+◌, ◌*◌, ◌/◌, ◌%◌, ◌^◌, ◌≤◌, ◌<◌, ◌≡◌, refl, ap, ◌∙◌, ◌≢◌, true, none, some, List,
  [], ◌∷◌, map, arith, ltb, length, get_elem?, set, length-set, get_elem?-set_self,
  get_elem?-set_ne, get_elem?-defined,
}
use ip_noise.Common.Int.{pos, div_ℤ, scale, int_or_fault}
use ip_noise.Kernel.Delayer.{add_timer, add_jiffies, release_time}
use ip_noise.Kernel.Switcher.{ChainTimer, start_timer, our_del_timers, left_pending, fresh_timers}
use ip_noise.Switcher.Reinit.{map_from, map_from-set, map_from-length}

-- The timer of the chain `i` is in the kernel's list, and its function gets `i`.
abbrev pub IsOn : List ChainTimer → ℕ → Type 0
IsOn timers i = (e : ℕ) × (get_elem? timers i ≡ some (record { expires = some e; chain_index = i }))

-- The timer of the chain `i` is not in the kernel's list.
abbrev pub IsOff : List ChainTimer → ℕ → Type 0
IsOff timers i = (t : ChainTimer) × (get_elem? timers i ≡ some t) × (t.expires ≡ none)

abbrev pub off : ChainTimer → ChainTimer
off t = record t { expires = none }

pub start_timer_off :
    (i tv : ℕ) (timers : List ChainTimer)
    → IsOff timers i
    → start_timer i tv timers ≡ some (set timers i (record { expires = some tv; chain_index = i }))
unfolding start_timer add_timer
start_timer_off i tv timers (t, e, o) = rw (e, o) refl

pub IsOn-set :
    (timers : List ChainTimer) (i tv : ℕ)
    → i < length timers
    → IsOn (set timers i (record { expires = some tv; chain_index = i })) i
IsOn-set timers i tv l = (tv, get_elem?-set_self timers i _ l)

pub IsOn-other :
    (timers : List ChainTimer) (t : ChainTimer) {i j : ℕ}
    → i ≢ j
    → IsOn timers j
    → IsOn (set timers i t) j
IsOn-other timers t n (e, h) = (e, get_elem?-set_ne timers t n ∙ h)

pub IsOff-other :
    (timers : List ChainTimer) (t : ChainTimer) {i j : ℕ}
    → i ≢ j
    → IsOff timers j
    → IsOff (set timers i t) j
IsOff-other timers t n (a, h, o) = (a, get_elem?-set_ne timers t n ∙ h, o)

del_timers_from :
    (left i : ℕ) (timers : List ChainTimer)
    → i + left ≡ length timers
    → our_del_timers left i timers ≡ some (map_from off i timers)
unfolding our_del_timers
del_timers_from zero i timers l =
    let e : i ≡ length timers = omega (arith, l) in rw (e, map_from-length off timers) refl
del_timers_from (suc left) i timers l =
    let (t, e) = get_elem?-defined timers i (omega (arith, l)) in
    let n : i + 1 + left ≡ length (set timers i (off t)) =
      omega (arith, l, length-set timers i (off t)) in
    rw e (
      del_timers_from left (i + 1) (set timers i (off t)) n
      ∙ ap (λ j. some (map_from off j (set timers i (off t)))) (omega arith)
      ∙ ap some (map_from-set off timers i e))

left_pending-off : (timers : List ChainTimer) → left_pending (map off timers) ≡ []
unfolding left_pending
left_pending-off [] = refl
left_pending-off (t ∷ timers) = left_pending-off timers

-- our_del_timers ends, and none of the timers stays in the kernel's list.
pub our_del_timers_all :
    (timers : List ChainTimer)
    → (r : List ChainTimer) × (our_del_timers (length timers) 0 timers ≡ some r)
      × (left_pending r ≡ [])
unfolding map_from
our_del_timers_all timers = (
  map off timers,
  del_timers_from (length timers) 0 timers (omega arith),
  left_pending-off timers,
)

pub length-fresh_timers : (garbage : ℕ → ℕ) (n : ℕ) → length (fresh_timers garbage n) ≡ n
unfolding fresh_timers
length-fresh_timers garbage zero = refl
length-fresh_timers garbage (suc n) = ap suc (length-fresh_timers garbage n)

pub fresh_timers-IsOff : (garbage : ℕ → ℕ) (n i : ℕ) → i < n → IsOff (fresh_timers garbage n) i
unfolding fresh_timers
fresh_timers-IsOff garbage zero i l = absurd (omega arith)
fresh_timers-IsOff garbage (suc n) zero l =
    (record { expires = none; chain_index = garbage n }, refl, refl)
fresh_timers-IsOff garbage (suc n) (suc i) l = fresh_timers-IsOff garbage n i (omega arith)

-- A delay that fits in microseconds is a number of jiffies that the timer waits.
pub release_time_fits :
    (hz jiffies n : ℕ)
    → hz ≤ 1000
    → n * 1000 < 2 ^ 31
    → release_time hz jiffies (pos n) ≡ some ((jiffies + n * hz / 1000) % 2 ^ 32)
unfolding release_time int_or_fault scale div_ℤ add_jiffies
release_time_fits hz jiffies n h l =
    let m = mul-le-mul_left n h in
    let k : ltb (n * hz) (2 ^ 31) ≡ true = ground (arith, m, l) in rw k refl
