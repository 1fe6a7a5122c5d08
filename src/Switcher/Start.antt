-- ===== src/Switcher/Start.antt =====
-- A poll behind a change of the data begins with one event for each chain, in its first state.
use mathlib.Core.List.Perm
use mathlib.Core.Logic.Or
use mathlib.Core.List.{Perm, Mem, eq-or-mem_of_mem-cons, not-mem-nil}
use mathlib.Core.Path.{subst}
use native.Mathlib.Bridge.{le_prop}
use ip_noise.Common.{
  ℕ, zero, suc, ◌+◌, ◌<◌, ◌≡◌, refl, sym, ap, ◌∙◌, true, false, some, List, [], ◌∷◌, map, arith,
  if_true, length, length-map,
}
use ip_noise.Delayer.Order.{NotAfter}
use ip_noise.Iface.Sound.{AllOf}
use ip_noise.Model.{Externals, Timeval, Chain, now, after_now}
use ip_noise.PQueue.Heap.{contents}
use ip_noise.Switcher.{Event, Switcher, reinit, restart_if_asked, poll}
use ip_noise.Switcher.Handle.{IsReady}
use ip_noise.Switcher.Order.{IsEvents}
use ip_noise.Switcher.Poll.{chain_ids, Polls, loop-Polls}
use ip_noise.Switcher.Reinit.{events_from, at_start, Restarts, reinit-Restarts}
use ip_noise.Switcher.Switch.{Forward, Runs}

-- The numbers of the `left` chains from index `i` on.
unfoldable pub numbers_from : ℕ → ℕ → List ℕ
numbers_from i zero = []
numbers_from i (suc left) = i ∷ numbers_from (i + 1) left

events_from-ids :
    (tv : Timeval) (i left : ℕ) → chain_ids (events_from tv i left) ≡ numbers_from i left
unfolding events_from numbers_from
events_from-ids tv i zero = refl
events_from-ids tv i (suc left) = ap (◌∷◌ i) (events_from-ids tv (i + 1) left)

events_from_below :
    (tv : Timeval) (i left : ℕ) (a : Event) → Mem a (events_from tv i left) → a.chain < i + left
unfolding events_from
events_from_below tv i zero a m = absurd (not-mem-nil m)
events_from_below tv i (suc left) a m =
    Or.elim le_prop (eq-or-mem_of_mem-cons m) (λ e. rw e (omega arith))
      (λ k. let below = events_from_below tv (i + 1) left a k in omega (arith, below))

module _ {x : Externals} where
  -- Each chain runs once it is in its first state.
  abbrev pub Startable : List (Chain x) → Type 0
  Startable = AllOf (λ c. Runs (at_start c))

  pub Startable-Runs : (l : List (Chain x)) → Startable l → AllOf Runs (map at_start l)
  Startable-Runs [] h = tt
  Startable-Runs (c ∷ l) h = (h.0, Startable-Runs l h.1)

  restarted-IsReady :
      (s : Switcher x) (r : Restarts s (reinit x s))
      → Startable s.chains
      → IsReady (record r.after { reinit_switcher = false })
  restarted-IsReady s r h = record {
    events = r.events;
    chains = subst (AllOf Runs) (sym r.chains) (Startable-Runs s.chains h);
    settled = refl;
    known = λ a m.
        let below =
          events_from_below (now s.env) 0 (length s.chains) a ((Perm.mem_iff r.same).0 m) in
        let l : length r.after.chains ≡ length s.chains =
          ap length r.chains ∙ length-map s.chains at_start in
        omega (arith, below, l);
  }

  reinit-ids :
      (s : Switcher x) (r : Restarts s (reinit x s))
      → Perm (chain_ids (contents r.after.pq)) (numbers_from 0 (length s.chains))
  reinit-ids s r =
      subst (Perm (chain_ids (contents r.after.pq)))
        (events_from-ids (now s.env) 0 (length s.chains)) (Perm.map (λ a. a.chain) r.same)

  asked-run :
      (s : Switcher x) (r : Restarts s (reinit x s))
      → s.reinit_switcher ≡ true
      → restart_if_asked x s ≡ some (record r.after { reinit_switcher = false })
  unfolding restart_if_asked
  asked-run s r h = if_true s.reinit_switcher _ _ h ∙ rw r.runs refl

  -- If the data was replaced, whatever events the queue has: where each chain is well formed, has
  -- a state and a name that is set, the delays that are drawn are not negative and fit an int in
  -- microseconds, and the clock does not go back, a poll ends without a fault with the flag
  -- cleared and with exactly one event for each chain of the new data, none of them before the
  -- time that the poll read behind the restart.
  pub poll-restarts :
      (s : Switcher x)
      → s.reinit_switcher ≡ true
      → IsEvents s.pq
      → Startable s.chains
      → Forward s.env
      → Polls (now (after_now s.env)) (numbers_from 0 (length s.chains)) (poll x s)
  unfolding poll
  poll-restarts s w v h f =
      let r = reinit-Restarts s v in
      let q =
        loop-Polls (record r.after { reinit_switcher = false }) (restarted-IsReady s r h)
          (subst Forward (sym r.env) f) in
      rw (asked-run s r w) (record {
        after = q.after;
        runs = q.runs;
        ready = q.ready;
        same = Perm.trans q.same (reinit-ids s r);
        left = λ a m. subst (λ e. NotAfter (now e) a.tv) r.env (q.left a m);
      })
