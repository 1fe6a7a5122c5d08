-- ===== src/Delayer/Delay.antt =====
-- A new message gets its place, and the thread is signalled when it may wait too long otherwise.
use mathlib.Core.List.Perm
use mathlib.Core.Logic.Or
use mathlib.Core.HLevel.{¬_prop, ⊥_prop}
use mathlib.Core.List.{Perm, Mem, eq-or-mem_of_mem-cons, mem-cons_self}
use native.Mathlib.Decide.{ℕ_discrete}
use ip_noise.Common.{ℕ, suc, ◌≡◌, refl, ◌∙◌, Bool, false, Option, none, some, ◌∷◌, arith}
use ip_noise.Common.Fault.{◌>>=◌}
use ip_noise.Common.Int.{ℤ}
use ip_noise.Delayer.{Delayed, delayed_cmp, is_before, needs_signal, delay_packet}
use ip_noise.Delayer.Order.{delayed_cmp-Orders, NotAfter, IsDelayer, pop-Earliest}
use ip_noise.Model.{Timeval}
use ip_noise.PQueue.{PQueue, push}
use ip_noise.PQueue.Heap.{contents, Gives}
use ip_noise.PQueue.Pop.{pop_empty}
use ip_noise.PQueue.Push.{push-Gives}
use ip_noise.Time.{add_delay, timeval_cmp}
use ip_noise.Time.Laws.{timeval_cmp_trans}

-- The thread waits for at most the time `t`; `none` is a wait without a limit.
abbrev pub Reaches : Option Timeval → Timeval → Type 0
Reaches none t = ⊥
Reaches (some d) t = NotAfter d t

-- The wait ends before any message of the queue is late.
abbrev pub Covers : Option Timeval → PQueue Delayed → Type 0
Covers w pq = (a : Delayed) → Mem a (contents pq) → Reaches w a.tv

Reaches-trans : (w : Option Timeval) (s t : Timeval) → Reaches w s → NotAfter s t → Reaches w t
Reaches-trans none s t h k = h
Reaches-trans (some d) s t h k = timeval_cmp_trans d s t h k

Reaches-prop : (w : Option Timeval) (t : Timeval) → IsProp (Reaches w t)
Reaches-prop none t = ⊥_prop
Reaches-prop (some d) t = ¬_prop

unsignalled-NotAfter :
    (b : Delayed) (later tv : Timeval)
    → needs_signal (some b) later tv ≡ false
    → NotAfter b.tv later
unfolding needs_signal is_before timeval_cmp
unsignalled-NotAfter b later tv h = ground arith

-- The run has a result: the queue with the new message; without a signal, a wait that was short enough
-- for the other messages still is.
pub record Delays (m : ℕ) (later : Timeval) (pq : PQueue Delayed)
    (run : Option (Bool × PQueue Delayed)) : Type 0 where
  pub signalled : Bool
  pub after : PQueue Delayed
  pub runs : run ≡ some (signalled, after)
  pub valid : IsDelayer after
  pub same : Perm (contents after) (record { m = m; tv = later } ∷ contents pq)
  pub covered : (w : Option Timeval) → Covers w pq → signalled ≡ false → Covers w after

module _ (pq : PQueue Delayed) (v : IsDelayer pq) (m : ℕ) (tv later : Timeval) where
  new : Delayed
  new = record { m = m; tv = later }

  placed :
      Gives delayed_cmp pq.is_ascending
        (suc pq.current_size)
        (new ∷ contents pq)
        (push delayed_cmp pq new)
  placed = push-Gives delayed_cmp-Orders pq new v.valid

  delay-Delays :
      (min_msg : Option Delayed)
      → ((w : Option Timeval)
          → Covers w pq
          → needs_signal min_msg later tv ≡ false
          → Reaches w later)
      → Delays m later pq (push delayed_cmp pq new >>= λ r. some (needs_signal min_msg later tv, r))
  unfolding new
  delay-Delays min_msg reached = record {
    signalled = needs_signal min_msg later tv;
    after = placed.after;
    runs = rw placed.runs refl;
    valid = record { valid = placed.valid; earliest_first = placed.direction ∙ v.earliest_first };
    same = placed.same;
    covered = λ w c s a i.
        Or.elim (Reaches-prop w a.tv) (eq-or-mem_of_mem-cons ((Perm.mem_iff placed.same).0 i))
          (λ q. rw q (reached w c s)) (c a);
  }

-- If the time `later` of the release can be computed, delay_packet has a result: the heap gets the
-- new message with this time, and keeps the others, each as often as before; if it does not signal
-- the thread, a wait that covers the messages that were there also covers the new one.
pub delay_packet-Delays :
    (pq : PQueue Delayed) (m : ℕ) (tv : Timeval) (delay_len : ℤ) {later : Timeval}
    → IsDelayer pq
    → add_delay tv delay_len ≡ some later
    → Delays m later pq (delay_packet pq m tv delay_len)
unfolding delay_packet new needs_signal
delay_packet-Delays pq m tv delay_len {later} v h = elim (ℕ_discrete pq.current_size 0) [
  | yes z ↦
      let (_, none_first) = pop_empty delayed_cmp-Orders pq z in
      rw (h, none_first) (delay-Delays pq v m tv later none (λ w c s. cc))
  | no nz ↦
      let e = pop-Earliest pq v (ground arith) in
      rw (h, e.peek)
        (delay-Delays pq v m tv later (some e.taken) (λ w c s.
          Reaches-trans w e.taken.tv later (c e.taken ((Perm.mem_iff e.same).0 mem-cons_self))
            (unsignalled-NotAfter e.taken later tv s)))
]
