-- ===== src/Switcher/Poll.antt =====
-- A poll ends, and moves each chain whose time is over.
use mathlib.Core.List.Perm
use mathlib.Core.List.{Perm, Mem, not-mem-nil}
use mathlib.Core.Path.{subst}
use native.Mathlib.Decide.{ℕ_discrete}
use ip_noise.Common.{
  ℕ, zero, suc, ◌<◌, ◌≡◌, refl, sym, inl, inr, true, false, Option, some, List, ◌∷◌, map, arith,
  Bool-cases, if_false,
}
use ip_noise.Delayer.Order.{NotAfter}
use ip_noise.Model.{Externals, Timeval, Env, now, after_now, after_rand}
use ip_noise.PQueue.Heap.{contents, not_empty, empty}
use ip_noise.Switcher.{Event, is_over, Switcher, handle_events, restart_if_asked, poll}
use ip_noise.Switcher.Count.{
  over_count, Perm-over_count, over_count_over, over_count_not, over_count-length,
}
use ip_noise.Switcher.Handle.{IsReady, Handles, handle_event-Handles}
use ip_noise.Switcher.Order.{Offers, IsEvents-Offers}
use ip_noise.Switcher.Reinit.{no_contents}
use ip_noise.Switcher.Switch.{Forward}
use ip_noise.Time.{timeval_cmp}
use ip_noise.Time.Laws.{timeval_cmp_trans}

not_over-NotAfter : (a : Event) (t : Timeval) → is_over a t ≡ false → NotAfter t a.tv
unfolding is_over timeval_cmp
not_over-NotAfter a t h = ground arith

NotAfter-not_over : (a : Event) (t : Timeval) → NotAfter t a.tv → is_over a t ≡ false
unfolding is_over timeval_cmp
NotAfter-not_over a t h = ground arith

-- The chains of the events.
abbrev pub chain_ids : List Event → List ℕ
chain_ids l = map (λ a. a.chain) l

Forward-next :
    (env : Env) → Forward env → NotAfter (now env) (now (after_rand (after_now (after_rand env))))
unfolding now after_rand after_now
Forward-next env f = f env.timed

module _ {x : Externals} where
  -- The run has a result: a switcher that can work, with an event for each chain that had one, and none
  -- of them before `t`.
  pub record Polls (t : Timeval) (ids : List ℕ) (run : Option (Switcher x)) : Type 0 where
    pub after : Switcher x
    pub runs : run ≡ some after
    pub ready : IsReady after
    pub same : Perm (chain_ids (contents after.pq)) ids
    pub left : (a : Event) → Mem a (contents after.pq) → NotAfter t a.tv

  stop-Polls :
      (t : Timeval) (s : Switcher x)
      → IsReady s
      → ((a : Event) → Mem a (contents s.pq) → NotAfter t a.tv)
      → Polls t (chain_ids (contents s.pq)) (some s)
  stop-Polls t s v h = record { after = s; runs = refl; ready = v; same = Perm.rfl; left = h }

  -- The ids behind an event that is handled.
  Handles-ids :
      (s : Switcher x) (o : Offers s.pq) {run : Option (Switcher x)} (h : Handles s o run)
      → Perm (chain_ids (contents h.after.pq)) (chain_ids (contents s.pq))
  Handles-ids s o h = Perm.trans (Perm.map (λ a. a.chain) h.same) (
      subst (λ i. Perm (i ∷ chain_ids (contents o.after)) (chain_ids (contents s.pq))) (sym h.chain)
        (Perm.map (λ a. a.chain) o.same))

  -- One event fewer is over.
  Handles-over_count :
      (t : Timeval) (s : Switcher x) (o : Offers s.pq) {run : Option (Switcher x)}
      (h : Handles s o run)
      → is_over o.taken t ≡ true
      → NotAfter t (now s.env)
      → suc (over_count t (contents h.after.pq)) ≡ over_count t (contents s.pq)
  Handles-over_count t s o h e l =
      let a = Perm-over_count t h.same in
      let b =
        over_count_not t h.made (contents o.after)
          (NotAfter-not_over h.made t (timeval_cmp_trans t (now s.env) h.made.tv l h.later)) in
      let c = over_count_over t o.taken (contents o.after) e in
      let d = Perm-over_count t o.same in omega (arith, a, b, c, d)

  handle_events-Polls :
      (fuel : ℕ) (t : Timeval) (s : Switcher x)
      → IsReady s
      → Forward s.env
      → NotAfter t (now s.env)
      → over_count t (contents s.pq) < fuel
      → Polls t (chain_ids (contents s.pq)) (handle_events x fuel t s)
  unfolding handle_events
  handle_events-Polls zero t s v f l m = absurd (omega arith)
  handle_events-Polls (suc fuel) t s v f l m = elim (ℕ_discrete s.pq.current_size 0) [
    | yes z ↦
        rw (empty s.pq z)
          (stop-Polls t s v (λ a i. absurd (not-mem-nil (subst (Mem a) (no_contents s.pq z) i))))
    | no nz ↦
        let p : 0 < s.pq.current_size = ground arith in
        let o = IsEvents-Offers s.pq v.events p in
        let h = handle_event-Handles s o v in
        elim (Bool-cases (is_over o.taken t)) [
          | inl e ↦
              let n = Handles-over_count t s o h e l in
              let r =
                handle_events-Polls fuel t h.after h.ready (subst Forward (sym h.env) f)
                  (subst (λ env. NotAfter t (now env)) (sym h.env)
                    (timeval_cmp_trans t (now s.env)
                      (now (after_rand (after_now (after_rand s.env)))) l (Forward-next s.env f)))
                  (omega (arith, n, m)) in
              rw (o.peek, h.runs, not_empty s.pq p, e)
                (record {
                  after = r.after;
                  runs = r.runs;
                  ready = r.ready;
                  same = Perm.trans r.same (Handles-ids s o h);
                  left = r.left;
                })
          | inr e ↦
              rw (o.peek, not_empty s.pq p, e)
                (stop-Polls t s v (λ a i.
                  timeval_cmp_trans t o.taken.tv a.tv (not_over-NotAfter o.taken t e)
                    (o.first a i)))
        ]
  ]

  -- The second part of a poll.
  pub loop-Polls :
      (s : Switcher x)
      → IsReady s
      → Forward s.env
      → Polls
          (now s.env)
          (chain_ids (contents s.pq))
          (handle_events x (suc s.pq.current_size) (now s.env) (record s { env = after_now s.env }))
  unfolding now after_now
  loop-Polls s v f =
      handle_events-Polls (suc s.pq.current_size) (now s.env) (record s { env = after_now s.env })
        (record { events = v.events; chains = v.chains; settled = v.settled; known = v.known }) f
        (f s.env.timed)
        (omega (arith, over_count-length (now s.env) s.pq.elements s.pq.current_size))

  unasked : (s : Switcher x) → s.reinit_switcher ≡ false → restart_if_asked x s ≡ some s
  unfolding restart_if_asked
  unasked s h = if_false s.reinit_switcher _ _ h

  -- If the data was not replaced, the queue is a heap of events of the chains, each chain is well
  -- formed, has a name that is set and is in one of its states, the delays that are drawn are not
  -- negative and fit an int in microseconds, and the clock does not go back, then a poll ends
  -- without a fault, within one round for each event and one more: each event that is over is
  -- replaced by one for the same chain, no event that is over is left, and all of this holds
  -- again.
  pub poll-Polls :
      (s : Switcher x)
      → IsReady s
      → Forward s.env
      → Polls (now s.env) (chain_ids (contents s.pq)) (poll x s)
  unfolding poll
  poll-Polls s v f = rw (unasked s v.settled) (loop-Polls s v f)
