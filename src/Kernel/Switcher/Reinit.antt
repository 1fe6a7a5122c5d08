-- ===== src/Kernel/Switcher/Reinit.antt =====
-- The switcher of the kernel starts a timer for each chain of new data, behind deleting the old ones.
use mathlib.Core.Path.{subst}
use native.Mathlib.Decide.{ℕ_discrete}
use ip_noise.Common.{
  ℕ, zero, suc, ◌+◌, ◌*◌, ◌/◌, ◌%◌, ◌^◌, ◌≤◌, ◌<◌, ◌≡◌, refl, sym, ap, ◌∙◌, Option, some, List, [],
  ◌++◌, map, arith, length, set, length-set, length-map, get_elem?-defined,
}
use ip_noise.Iface.Sound.{AllOf}
use ip_noise.Kernel.Switcher.{
  ChainTimer, our_del_timers, left_pending, fresh_timers, KernelSwitcher, kernel_start_chain,
  kernel_start_chains, kernel_reinit, replace_data,
}
use ip_noise.Kernel.Switcher.Timers.{
  IsOn, IsOff, start_timer_off, IsOn-set, IsOn-other, IsOff-other, our_del_timers_all,
  length-fresh_timers, fresh_timers-IsOff, release_time_fits,
}
use ip_noise.Model.{Externals, Chain}
use ip_noise.Switcher.Reinit.{map_from, map_from-set, map_from-length, at_start}
use ip_noise.Switcher.Start.{Startable, Startable-Runs}
use ip_noise.Switcher.Switch.{Runs}

module _ {x : Externals} where
  -- Each chain of the data in use runs, and has a timer that works on this chain; no timer is left of
  -- data that was freed.
  pub record IsTimed (s : KernelSwitcher x) : Type 0 where
    pub chains : AllOf Runs s.switcher.chains
    pub size : length s.timers ≡ length s.switcher.chains
    pub timed : (i : ℕ) → i < length s.switcher.chains → IsOn s.timers i
    pub dangling : s.dangling ≡ []

  -- The rounds have a result: the chains from `i` on are at their start, and all timers are on.
  record KernelStarts (i : ℕ) (s : KernelSwitcher x) (run : Option (KernelSwitcher x))
      : Type 0 where
    after : KernelSwitcher x
    runs : run ≡ some after
    chains : after.switcher.chains ≡ map_from at_start i s.switcher.chains
    size : length after.timers ≡ length s.timers
    timed : (j : ℕ) → j < length s.timers → IsOn after.timers j
    dangling : after.dangling ≡ s.dangling

  kernel_start_chains-KernelStarts :
      (hz : ℕ) (clock : ℕ → ℕ) (left i : ℕ) (s : KernelSwitcher x)
      → hz ≤ 1000
      → length s.timers ≡ length s.switcher.chains
      → i + left ≡ length s.switcher.chains
      → ((j : ℕ) → j < i → IsOn s.timers j)
      → ((j : ℕ) → i ≤ j → j < length s.timers → IsOff s.timers j)
      → KernelStarts i s (kernel_start_chains x hz clock left i s)
  unfolding kernel_start_chains kernel_start_chain
  kernel_start_chains-KernelStarts hz clock zero i s h k l on rest =
      let e : i ≡ length s.switcher.chains = omega (arith, l) in
      record {
        after = s;
        runs = refl;
        chains = rw e (sym (map_from-length at_start s.switcher.chains));
        size = refl;
        timed = λ j m. on j (omega (arith, e, k, m));
        dangling = refl;
      }
  kernel_start_chains-KernelStarts hz clock (suc left) i s h k l on rest =
      let (c, e) = get_elem?-defined s.switcher.chains i (omega (arith, l)) in
      let inside : i < length s.timers = omega (arith, l, k) in
      let tv : ℕ = (clock i + 100 * hz / 1000) % 2 ^ 32 in
      let t : ChainTimer = record { expires = some tv; chain_index = i } in
      let chains = set s.switcher.chains i (at_start c) in
      let timers = set s.timers i t in
      let size : length timers ≡ length s.timers = length-set s.timers i t in
      let n : length chains ≡ length s.switcher.chains =
        length-set s.switcher.chains i (at_start c) in
      let s' : KernelSwitcher x = record s {
        switcher = record s.switcher { chains = chains };
        timers = timers;
      } in
      let waits = release_time_fits hz (clock i) 100 h (omega arith) in
      let starts = start_timer_off i tv s.timers (rest i (omega arith) inside) in
      let more =
        kernel_start_chains-KernelStarts hz clock left (i + 1) s' h (omega (arith, size, n, k))
          (omega (arith, n, l))
          (λ j m. elim (ℕ_discrete i j) [
            | yes q ↦ subst (IsOn timers) q (IsOn-set s.timers i tv inside)
            | no q ↦ IsOn-other s.timers t q (on j (ground arith))
          ])
          (λ j m o.
            IsOff-other s.timers t {i = i} (λ q. absurd (omega (arith, q, m)))
              (rest j (omega arith) (omega (arith, o, size)))) in
      record {
        after = more.after;
        runs = rw (e, waits, starts) more.runs;
        chains =
            more.chains
            ∙ ap (λ j. map_from at_start j chains) (omega arith)
            ∙ map_from-set at_start s.switcher.chains i e;
        size = more.size ∙ size;
        timed = λ j m. more.timed j (omega (arith, m, size));
        dangling = more.dangling;
      }

  -- The chains of the new data run, at their start.
  pub record Replaces (chains : List (Chain x)) (run : Option (KernelSwitcher x)) : Type 0 where
    pub after : KernelSwitcher x
    pub runs : run ≡ some after
    pub chains_of : after.switcher.chains ≡ map at_start chains
    pub timed : IsTimed after

  pub replace_data-Replaces :
      (hz : ℕ) (clock garbage : ℕ → ℕ) (chains : List (Chain x)) (s : KernelSwitcher x)
      → hz ≤ 1000
      → Startable chains
      → IsTimed s
      → Replaces chains (replace_data x hz clock chains (fresh_timers garbage (length chains)) s)
  unfolding replace_data kernel_reinit map_from
  replace_data-Replaces hz clock garbage chains s h k v =
      let (old, e, none_left) = our_del_timers_all s.timers in
      let fresh = fresh_timers garbage (length chains) in
      let size : length fresh ≡ length chains = length-fresh_timers garbage (length chains) in
      let deleted : our_del_timers (length s.switcher.chains) 0 s.timers ≡ some old =
        rw (← v.size) e in
      let s' : KernelSwitcher x = record {
        switcher = record s.switcher { chains = chains };
        timers = fresh;
        dangling = left_pending old ++ s.dangling;
      } in
      let r =
        kernel_start_chains-KernelStarts hz clock (length chains) 0 s' h size (omega arith)
          (λ j m. absurd (omega arith))
          (λ j m o. fresh_timers-IsOff garbage (length chains) j (omega (arith, o, size))) in
      let many = length-map chains at_start in
      record {
        after = r.after;
        runs = rw deleted r.runs;
        chains_of = r.chains;
        timed = record {
          chains = subst (AllOf Runs) (sym r.chains) (Startable-Runs chains k);
          size = rw (r.chains, many) (r.size ∙ size);
          timed = λ j m.
              let inside : j < length (map at_start chains) = rw r.chains at m in
              r.timed j (omega (arith, inside, many, size));
          dangling = r.dangling ∙ rw (none_left, v.dangling) refl;
        };
      }
