-- ===== src/Kernel/Switcher/Session.antt =====
-- The switcher of the kernel, next to the kernel's timers and the connections that replace its data. A
-- step is one call, run as a whole: a call that waits for the lock while the data is replaced has no
-- model. The packet logic, which runs in between, changes nothing that the switcher reads.
use mathlib.Core.Path.{subst}
use ip_noise.Common.{
  ℕ, ◌+◌, ◌*◌, ◌/◌, ◌%◌, ◌^◌, ◌≤◌, ◌<◌, ◌≡◌, refl, sym, ap, Option, some, List, [], map, arith,
  length, get_elem?, set, get_elem?-lt,
}
use ip_noise.Kernel.Switcher.{
  ChainTimer, fresh_timers, KernelSwitcher, switch_timer_function, replace_data,
}
use ip_noise.Kernel.Switcher.Fire.{fires-Rearms}
use ip_noise.Kernel.Switcher.Reinit.{IsTimed, replace_data-Replaces}
use ip_noise.Kernel.Switcher.Timers.{off}
use ip_noise.Model.{Externals, Chain}
use ip_noise.Switcher.{Switcher}
use ip_noise.Switcher.Reinit.{at_start}
use ip_noise.Switcher.Start.{Startable}

module _ {x : Externals} where
  pub data KernelSwitchStep (hz : ℕ) (s : KernelSwitcher x) : KernelSwitcher x → Type 0 where
    -- The kernel takes a timer whose time has come out of its list, and calls its function.
    fires :
        (jiffies i : ℕ) {t : ChainTimer} {e : ℕ} {r : KernelSwitcher x}
        → get_elem? s.timers i ≡ some t
        → t.expires ≡ some e
        → e ≤ jiffies
        → switch_timer_function x hz jiffies t.chain_index
            (record s { timers = set s.timers i (off t) })
          ≡ some r
        → KernelSwitchStep hz s r
    -- A connection ends; each chain of its copy can start.
    replaces :
        (clock garbage : ℕ → ℕ) (chains : List (Chain x)) {r : KernelSwitcher x}
        → Startable chains
        → replace_data x hz clock chains (fresh_timers garbage (length chains)) s ≡ some r
        → KernelSwitchStep hz s r

  -- The data has no chains at first.
  pub data KernelSwitchReached (hz : ℕ) : KernelSwitcher x → Type 0 where
    begins :
        (w : Switcher x)
        → w.chains ≡ []
        → KernelSwitchReached hz (record { switcher = w; timers = []; dangling = [] })
    goes :
        {s t : KernelSwitcher x}
        → KernelSwitchReached hz s
        → KernelSwitchStep hz s t
        → KernelSwitchReached hz t

  -- The timer of the list that stands at `i` works on the chain `i`.
  timer_of :
      (s : KernelSwitcher x) (i : ℕ) {t : ChainTimer}
      → IsTimed s
      → get_elem? s.timers i ≡ some t
      → (i < length s.switcher.chains) × (t.chain_index ≡ i)
  timer_of s i {t} v e =
      let l = get_elem?-lt s.timers i e in
      let inside : i < length s.switcher.chains = omega (arith, l, v.size) in
      let (a, h) = v.timed i inside in
      let q : t ≡ record { expires = some a; chain_index = i } = cc in
      (inside, ap (λ y. y.chain_index) q)

  KernelSwitchStep-IsTimed :
      {hz : ℕ} {s t : KernelSwitcher x}
      → hz ≤ 1000
      → IsTimed s
      → KernelSwitchStep hz s t
      → IsTimed t
  KernelSwitchStep-IsTimed {hz} {s} {t = after} h v
        (KernelSwitchStep.fires jiffies i {t} g e l run) =
      let (inside, q) = timer_of s i v g in
      let r = fires-Rearms hz jiffies i s t h inside v in
      let fired : Option (KernelSwitcher x) → Type 0 = (λ u. u ≡ some after) in
      let same =
        subst
          (λ k.
            fired
              (switch_timer_function x hz jiffies k (record s { timers = set s.timers i (off t) })))
          q run in
      let y = r.runs in subst IsTimed (cc) r.timed
  KernelSwitchStep-IsTimed {hz} {s} h v (KernelSwitchStep.replaces clock garbage chains k run) =
      let r = replace_data-Replaces hz clock garbage chains s h k v in
      let y = r.runs in subst IsTimed (cc) r.timed

  -- In every state that calls of the kernel's switcher, one at a time, the kernel's timers and the
  -- connections that end reach, where no function of a timer waits for the lock while a connection
  -- ends, HZ is at most 1000, and the chains of new data have states, names that are set, and
  -- delays that are not negative and fit an int in microseconds: each chain of the data in use is
  -- in one of its states, its timer is in the kernel's list and works on this chain; and no timer
  -- is in that list whose chain was freed.
  pub KernelSwitchReached-IsTimed :
      {hz : ℕ} {s : KernelSwitcher x} → hz ≤ 1000 → KernelSwitchReached hz s → IsTimed s
  KernelSwitchReached-IsTimed h (KernelSwitchReached.begins w e) = record {
    chains = rw e tt;
    size = rw e refl;
    timed = λ i l. let no_chain : i < length {A = Chain x} [] = rw e at l in absurd (omega arith);
    dangling = refl;
  }
  KernelSwitchReached-IsTimed h (KernelSwitchReached.goes r t) =
      KernelSwitchStep-IsTimed h (KernelSwitchReached-IsTimed h r) t

  -- In every state that calls of the kernel's switcher, one at a time, the kernel's timers and the
  -- connections that end reach, where no function of a timer waits for the lock while a connection
  -- ends, HZ is at most 1000, and the chains of new data have states, names that are set, and
  -- delays that are not negative and fit an int in microseconds: if the time of a timer of a chain
  -- has come, its function returns without a fault, in such a state again; this timer is on again
  -- for the same chain, behind a number of milliseconds that fits an int in microseconds, and the
  -- other timers are as they were.
  pub KernelSwitchReached-fires :
      {hz : ℕ} {s : KernelSwitcher x} (jiffies i : ℕ) {t : ChainTimer} {e : ℕ}
      → hz ≤ 1000
      → KernelSwitchReached hz s
      → get_elem? s.timers i ≡ some t
      → t.expires ≡ some e
      → e ≤ jiffies
      → (n : ℕ) × (n * 1000 < 2 ^ 31)
        × (r : KernelSwitcher x) × (switch_timer_function x hz jiffies t.chain_index
              (record s { timers = set s.timers i (off t) })
            ≡ some r)
        × KernelSwitchReached hz r
        × (r.timers
            ≡ set s.timers i
                (record { expires = some ((jiffies + n * hz / 1000) % 2 ^ 32); chain_index = i }))
  KernelSwitchReached-fires {hz} {s} jiffies i {t} h reached g g' le =
      let v = KernelSwitchReached-IsTimed h reached in
      let (inside, q) = timer_of s i v g in
      let r = fires-Rearms hz jiffies i s t h inside v in
      let fired : Option (KernelSwitcher x) → Type 0 = (λ u. u ≡ some r.after) in
      let run =
        subst
          (λ k.
            fired
              (switch_timer_function x hz jiffies k (record s { timers = set s.timers i (off t) })))
          (sym q) r.runs in
      (
        r.n,
        r.fits,
        r.after,
        run,
        KernelSwitchReached.goes reached (KernelSwitchStep.fires jiffies i g g' le run),
        r.timers,
      )

  -- The end of a connection can always come next, and leaves the chains of its copy, each in its first
  -- state.
  KernelSwitchReached-replaces :
      {hz : ℕ} {s : KernelSwitcher x} (clock garbage : ℕ → ℕ) (chains : List (Chain x))
      → hz ≤ 1000
      → KernelSwitchReached hz s
      → Startable chains
      → (r : KernelSwitcher x) × KernelSwitchStep hz s r × (r.switcher.chains ≡ map at_start chains)
  KernelSwitchReached-replaces {hz} {s} clock garbage chains h reached k =
      let v = KernelSwitchReached-IsTimed h reached in
      let r = replace_data-Replaces hz clock garbage chains s h k v in
      (r.after, KernelSwitchStep.replaces clock garbage chains k r.runs, r.chains_of)
