-- ===== src/Kernel/Switcher/Fire.antt =====
-- The function of a chain's timer in the kernel's switcher moves the chain, and starts the timer again.
use mathlib.Core.Path.{subst}
use native.Mathlib.Decide.{ℕ_discrete}
use ip_noise.Common.{
  ℕ, zero, suc, ◌+◌, ◌*◌, ◌/◌, ◌%◌, ◌^◌, ◌≤◌, ◌<◌, ◌≡◌, refl, sym, ap, ◌∙◌, Option, some, List, [],
  ◌∷◌, arith, length, set, length-set, get_elem?-set_self, get_elem?-defined,
}
use ip_noise.Iface.Sound.{AllOf-get, AllOf-set}
use ip_noise.Kernel.Switcher.{ChainTimer, KernelSwitcher, switch_timer_function}
use ip_noise.Kernel.Switcher.Reinit.{IsTimed}
use ip_noise.Kernel.Switcher.Timers.{
  IsOn, off, start_timer_off, IsOn-set, IsOn-other, release_time_fits,
}
use ip_noise.Model.{Externals, after_rand}
use ip_noise.Switcher.{Switcher}
use ip_noise.Switcher.Switch.{Runs, switch_chain-Runs, calc_chain_delay_fits}

set_twice : {A : Type 0} (l : List A) (i : ℕ) (a b : A) → set (set l i a) i b ≡ set l i b
set_twice [] i a b = refl
set_twice (c ∷ l) zero a b = refl
set_twice (c ∷ l) (suc i) a b = ap (◌∷◌ c) (set_twice l i a b)

module _ {x : Externals} where
  -- The call has a result: the chain stays fit to run, and its timer is on again, behind a delay of `n`
  -- milliseconds.
  pub record Rearms (hz jiffies i : ℕ) (s : KernelSwitcher x) (run : Option (KernelSwitcher x))
      : Type 0 where
    pub n : ℕ
    pub after : KernelSwitcher x
    pub runs : run ≡ some after
    pub fits : n * 1000 < 2 ^ 31
    pub timers :
        after.timers
        ≡ set s.timers i
            (record { expires = some ((jiffies + n * hz / 1000) % 2 ^ 32); chain_index = i })
    pub timed : IsTimed after

  pub fires-Rearms :
      (hz jiffies i : ℕ) (s : KernelSwitcher x) (t : ChainTimer)
      → hz ≤ 1000
      → i < length s.switcher.chains
      → IsTimed s
      → Rearms hz jiffies i s
          (switch_timer_function x hz jiffies i (record s { timers = set s.timers i (off t) }))
  unfolding switch_timer_function
  fires-Rearms hz jiffies i s t h l v =
      let (c, e) = get_elem?-defined s.switcher.chains i l in
      let w = s.switcher in
      let inside : i < length s.timers = omega (arith, l, v.size) in
      let (d, switched, runs) = switch_chain-Runs w i e (AllOf-get Runs w.chains i v.chains e) in
      let w' : Switcher x = record w { chains = set w.chains i d; env = after_rand w.env } in
      let (n, drawn_delay, fits) =
        calc_chain_delay_fits w' i (get_elem?-set_self w.chains i d l) runs in
      let tv : ℕ = (jiffies + n * hz / 1000) % 2 ^ 32 in
      let on : ChainTimer = record { expires = some tv; chain_index = i } in
      let starts =
        start_timer_off i tv (set s.timers i (off t))
          (off t, get_elem?-set_self s.timers i (off t) inside, refl) in
      let chains = length-set w.chains i d in
      record {
        n = n;
        after = record s {
          switcher = record w' { env = after_rand w'.env };
          timers = set s.timers i on;
        };
        runs =
            rw
              (
                switched,
                drawn_delay,
                release_time_fits hz jiffies n h fits,
                starts,
                set_twice s.timers i (off t) on,
              )
              refl;
        fits = fits;
        timers = refl;
        timed = record {
          chains = AllOf-set Runs w.chains i v.chains runs;
          size = length-set s.timers i on ∙ v.size ∙ sym chains;
          timed = λ j m. elim (ℕ_discrete i j) [
            | yes q ↦ subst (IsOn (set s.timers i on)) q (IsOn-set s.timers i tv inside)
            | no q ↦ IsOn-other s.timers on q (v.timed j (omega (arith, m, chains)))
          ];
          dangling = v.dangling;
        };
      }
