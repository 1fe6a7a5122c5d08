-- ===== src/Kernel/Switcher.antt =====
-- The switcher of C/arbitrator/switcher.c in the kernel build, where each chain has a timer of the
-- kernel, and what close_connection of C/arbitrator/iface.c does with the timers. A time is a number of
-- jiffies, an unsigned long of 32 bits. The queue of a Switcher is not used here.
pub mod Timers
pub mod Reinit
pub mod Fire
pub mod Session
use ip_noise.Common.{
  ℕ, zero, suc, ◌+◌, Option, none, some, List, [], ◌∷◌, ◌++◌, length, get_elem?, set,
}
use ip_noise.Common.Fault.{◌>>=◌}
use ip_noise.Common.Int.{pos}
use ip_noise.Kernel.Delayer.{add_timer, release_time}
use ip_noise.Model.{Externals, Chain}
use ip_noise.Switcher.{Switcher, switch_chain, calc_chain_delay}

-- The `timer` and the `timer_data` of a chain: when the timer is over, if it is in the kernel's list, and
-- the index that its function gets.
pub record ChainTimer : Type 0 where
  pub expires : Option ℕ
  pub chain_index : ℕ

-- init_timer and add_timer on the timer of the chain `i`, whose data names this chain. A timer that is
-- in the list must not be added.
unfoldable pub start_timer : ℕ → ℕ → List ChainTimer → Option (List ChainTimer)
unfolding add_timer
start_timer i tv timers = do
  t ← get_elem? timers i
  e ← add_timer tv t.expires
  some (set timers i (record { expires = e; chain_index = i }))

-- The loop of our_del_timers, for `left` chains from index `i` on
unfoldable pub our_del_timers : ℕ → ℕ → List ChainTimer → Option (List ChainTimer)
our_del_timers zero i timers = some timers
our_del_timers (suc left) i timers = get_elem? timers i >>= λ t.
    our_del_timers left (i + 1) (set timers i (record t { expires = none }))

-- The timers of the list that are in the kernel's.
unfoldable pub left_pending : List ChainTimer → List ChainTimer
left_pending [] = []
left_pending (t ∷ timers) =
    let rest = left_pending timers in elim t.expires [ none ↦ rest | some e ↦ t ∷ rest ]

-- The timers of `n` chains that malloc gave, which are not in the kernel's list.
unfoldable pub fresh_timers : (ℕ → ℕ) → ℕ → List ChainTimer
fresh_timers garbage zero = []
fresh_timers garbage (suc n) =
    record { expires = none; chain_index = garbage n } ∷ fresh_timers garbage n

module _ (x : Externals) where
  -- The switcher, the timers of the chains of the data in use, in their order, and the timers that are
  -- in the kernel's list though the memory of their chains is freed.
  pub record KernelSwitcher : Type 0 where
    pub switcher : Switcher x
    pub timers : List ChainTimer
    pub dangling : List ChainTimer

  -- timer_function at the time `jiffies`, for the index in its timer_data
  unfoldable pub switch_timer_function : ℕ → ℕ → ℕ → KernelSwitcher → Option KernelSwitcher
  unfolding switch_chain calc_chain_delay release_time start_timer
  switch_timer_function hz jiffies i s = do
    u ← switch_chain x i s.switcher
    r ← calc_chain_delay x i u
    tv ← release_time hz jiffies r.0
    timers ← start_timer i tv s.timers
    some (record s { switcher = r.1; timers = timers })

  -- One round of the loop of ip_noise_arbitrator_switcher_reinit, at the time `jiffies`
  unfoldable pub kernel_start_chain : ℕ → ℕ → ℕ → KernelSwitcher → Option KernelSwitcher
  unfolding release_time start_timer
  kernel_start_chain hz jiffies i s = do
    c ← get_elem? s.switcher.chains i
    tv ← release_time hz jiffies (pos 100)
    timers ← start_timer i tv s.timers
    let chains = set s.switcher.chains i (record c { current_state = some 0 })
    some (record s { switcher = record s.switcher { chains = chains }; timers = timers })

  -- The rounds for `left` chains from index `i` on; `clock` has the jiffies of each round.
  unfoldable pub kernel_start_chains : ℕ → (ℕ → ℕ) → ℕ → ℕ → KernelSwitcher → Option KernelSwitcher
  unfolding kernel_start_chain
  kernel_start_chains hz clock zero i s = some s
  kernel_start_chains hz clock (suc left) i s =
      kernel_start_chain hz (clock i) i s >>= kernel_start_chains hz clock left (i + 1)

  -- ip_noise_arbitrator_switcher_reinit
  unfoldable pub kernel_reinit : ℕ → (ℕ → ℕ) → KernelSwitcher → Option KernelSwitcher
  unfolding kernel_start_chains
  kernel_reinit hz clock s = kernel_start_chains hz clock (length s.switcher.chains) 0 s

  -- What close_connection does under the lock, for the chains of the copy and their timers:
  -- ip_noise_arbitrator_data_free of the data in use, and reinit on the copy.
  unfoldable pub replace_data :
      ℕ → (ℕ → ℕ) → List (Chain x) → List ChainTimer → KernelSwitcher → Option KernelSwitcher
  unfolding our_del_timers left_pending kernel_reinit
  replace_data hz clock chains timers s = do
    old ← our_del_timers (length s.switcher.chains) 0 s.timers
    kernel_reinit hz clock (record {
      switcher = record s.switcher { chains = chains };
      timers = timers;
      dangling = left_pending old ++ s.dangling;
    })
