-- ===== src/Tests/Timers.antt =====
-- The timers of the kernel's switcher, with a chain of two states, and its release times.
use ip_noise.Common.{
  ℕ, ◌+◌, ◌%◌, ◌-◌, ◌*◌, ◌/◌, ◌^◌, ◌≤◌, ◌<◌, ◌≡◌, refl, ◌⊎◌, true, none, some, List, [], ◌∷◌, arith,
}
use ip_noise.Common.Int.{pos}
use ip_noise.Kernel.Stable.{kernel_stable_delay, kernel_schedule, IsKept, kernel_schedule-stable}
use ip_noise.Kernel.Switcher.{fresh_timers, KernelSwitcher, switch_timer_function, replace_data}
use ip_noise.Kernel.Switcher.Reinit.{IsTimed}
use ip_noise.Kernel.Switcher.Session.{
  KernelSwitchStep, KernelSwitchReached, KernelSwitchReached-IsTimed, KernelSwitchReached-fires,
}
use ip_noise.Model.{Chain}
use ip_noise.Switcher.Start.{Startable}
use ip_noise.Switcher.Switch.{Runs-move}
use ip_noise.Tests.{toy}
use ip_noise.Tests.Switches.{pair_of_states, switcher, pair_of_states-Runs}

abbrev two_states : List (Chain toy)
two_states = pair_of_states ∷ []

two_states-Startable : Startable two_states
two_states-Startable = (Runs-move pair_of_states 0 pair_of_states-Runs (omega arith), tt)

-- A connection replaced the data at the time 5: the timer is for 100 milliseconds, 10 jiffies, later.
abbrev armed : KernelSwitcher toy
armed = record {
  switcher = record switcher { chains = record pair_of_states { current_state = some 0 } ∷ [] };
  timers = record { expires = some 15; chain_index = 0 } ∷ [];
  dangling = [];
}

armed-Reached : KernelSwitchReached 100 armed
unfolding replace_data fresh_timers
armed-Reached =
    KernelSwitchReached.goes (KernelSwitchReached.begins (record switcher { chains = [] }) refl)
      (KernelSwitchStep.replaces (λ i. 5) (λ i. 7) two_states two_states-Startable refl)

-- At the time 16 the chain moves, for a delay of 0.
abbrev fired : KernelSwitcher toy
fired = record {
  switcher = record switcher {
    chains = pair_of_states ∷ [];
    env = record switcher.env { drawn = 2 };
  };
  timers = record { expires = some 16; chain_index = 0 } ∷ [];
  dangling = [];
}

fires_at_16 :
    switch_timer_function toy 100 16 0
      (record armed { timers = record { expires = none; chain_index = 0 } ∷ [] })
    ≡ some fired
unfolding switch_timer_function
fires_at_16 = refl

KernelSwitchReached-IsTimed_example : IsTimed armed
KernelSwitchReached-IsTimed_example = KernelSwitchReached-IsTimed (omega arith) armed-Reached

KernelSwitchReached-fires_example :
    (n : ℕ) × (n * 1000 < 2 ^ 31)
    × (r : KernelSwitcher toy) × (switch_timer_function toy 100 16 0
          (record armed { timers = record { expires = none; chain_index = 0 } ∷ [] })
        ≡ some r)
    × KernelSwitchReached 100 r
    × (r.timers ≡ record { expires = some ((16 + n * 100 / 1000) % 2 ^ 32); chain_index = 0 } ∷ [])
KernelSwitchReached-fires_example =
    KernelSwitchReached-fires 16 0 (omega arith) armed-Reached refl refl (omega arith)

-- The last packet was released at the time 5, and it is 7: 100 milliseconds are 10 jiffies.
kernel_schedule-stable_example :
    ((7 ≤ 15) × IsKept 15 (kernel_schedule 100 true 5 7 (pos 100)))
    ⊎ ((15 < 7)
        × (kernel_stable_delay 100 5 7 (pos 100) ≡ some (pos ((2 ^ 32 - (7 - 15) * 1000) / 100)))
        × (kernel_schedule 100 true 5 7 (pos 100) ≡ none))
kernel_schedule-stable_example =
    kernel_schedule-stable 100 5 7 100 (omega arith) (omega arith) (omega arith) (omega arith)
      (omega arith) (omega arith) (omega arith) (omega arith)

-- It is 20: the packet should go at once, and is to wait for half a day.
half_a_day : kernel_stable_delay 100 5 20 (pos 100) ≡ some (pos 42949622)
unfolding kernel_stable_delay
half_a_day = refl
