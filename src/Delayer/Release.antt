-- ===== src/Delayer/Release.antt =====
-- The delayer releases the messages that are due, in the order of their times.
use mathlib.Core.List.Perm
use mathlib.Core.Logic.Or
use Prim.Native.Nat.{Ordering}
use mathlib.Core.HLevel.{¬_prop}
use mathlib.Core.List.{
  Perm, Mem, eq-or-mem_of_mem-cons, mem-cons_of_mem, not-mem-nil, mem-append_left,
}
use mathlib.Core.Path.{subst}
use native.Mathlib.Decide.{ℕ_discrete}
use ip_noise.Common.{
  ℕ, zero, suc, ◌<◌, ◌≡◌, refl, inl, inr, Option, some, List, [], ◌∷◌, ◌++◌, arith, Bool-cases,
}
use ip_noise.Common.Fault.{◌>>=◌}
use ip_noise.Delayer.{Delayed, delayed_cmp, is_due, release}
use ip_noise.Delayer.Order.{
  NotAfter, InOrder, IsDelayer, due-NotAfter, not_due, later_than_now, Earliest, pop-Earliest,
}
use ip_noise.Model.{Timeval}
use ip_noise.PQueue.{PQueue, pop}
use ip_noise.PQueue.Heap.{contents, not_empty, empty}
use ip_noise.PQueue.Items.{items}
use ip_noise.Time.{timeval_cmp}

-- The run has a result: `released` are the messages of the queue that are not after `now`, in order,
-- and the queue behind it has the others, which are after `now`.
pub record Releases (now : Timeval) (pq : PQueue Delayed)
    (run : Option (List Delayed × PQueue Delayed)) : Type 0 where
  pub released : List Delayed
  pub after : PQueue Delayed
  pub runs : run ≡ some (released, after)
  pub valid : IsDelayer after
  pub same : Perm (released ++ contents after) (contents pq)
  pub due : (a : Delayed) → Mem a released → NotAfter a.tv now
  pub in_order : InOrder released
  pub left : (a : Delayed) → Mem a (contents after) → timeval_cmp now a.tv ≡ Ordering.lt

-- Nothing is due.
stop-Releases :
    (now : Timeval) (pq : PQueue Delayed)
    → IsDelayer pq
    → ((a : Delayed) → Mem a (contents pq) → timeval_cmp now a.tv ≡ Ordering.lt)
    → Releases now pq (some ([], pq))
stop-Releases now pq v h = record {
  released = [];
  after = pq;
  runs = refl;
  valid = v;
  same = Perm.rfl;
  due = λ a m. absurd (not-mem-nil m);
  in_order = tt;
  left = h;
}

-- The first message is due.
go-Releases :
    (now : Timeval) (pq : PQueue Delayed) (fuel : ℕ) (e : Earliest pq (pop delayed_cmp pq))
    → NotAfter e.taken.tv now
    → Releases now e.after (release fuel now e.after)
    → Releases now pq (release fuel now e.after >>= λ l. some (e.taken ∷ l.0, l.1))
go-Releases now pq fuel e d rest = record {
  released = e.taken ∷ rest.released;
  after = rest.after;
  runs = rw rest.runs refl;
  valid = rest.valid;
  same = Perm.trans (Perm.cons e.taken rest.same) e.same;
  due = λ a m. Or.elim ¬_prop (eq-or-mem_of_mem-cons m) (λ q. rw q d) (rest.due a);
  in_order = (
    λ a m. e.first a (
        (Perm.mem_iff e.same).0 (
          mem-cons_of_mem e.taken
            ((Perm.mem_iff rest.same).0 (mem-append_left (contents rest.after) m)))),
    rest.in_order,
  );
  left = rest.left;
}

-- The test of the first message.
test-Releases :
    (now : Timeval) (pq : PQueue Delayed) (fuel : ℕ)
    → IsDelayer pq
    → 0 < pq.current_size
    → (e : Earliest pq (pop delayed_cmp pq)) → Releases now e.after (release fuel now e.after)
    → Releases now pq (release (suc fuel) now pq)
unfolding release
test-Releases now pq fuel v p e rest =
    let t = not_empty pq p in
    rw (e.peek, e.runs, t)
      (elim (Bool-cases (is_due e.taken now)) [
        | inl c ↦ rw c (go-Releases now pq fuel e (due-NotAfter e.taken now c) rest)
        | inr c ↦ rw c (
            stop-Releases now pq v
              (λ a m. later_than_now now e.taken.tv a.tv (not_due e.taken now c) (e.first a m)))
      ])

release_below :
    (fuel : ℕ) (now : Timeval) (pq : PQueue Delayed)
    → IsDelayer pq
    → pq.current_size < fuel
    → Releases now pq (release fuel now pq)
unfolding release items
release_below zero now pq v l = absurd (omega arith)
release_below (suc fuel) now pq v l = elim (ℕ_discrete pq.current_size 0) [
  | yes z ↦
      let t = empty pq z in
      let none_left : (a : Delayed) → Mem a (contents pq) → timeval_cmp now a.tv ≡ Ordering.lt =
        λ a m. absurd (not-mem-nil (subst (λ n. Mem a (items pq.elements n)) z m)) in
      rw t (stop-Releases now pq v none_left)
  | no nz ↦
      let p : 0 < pq.current_size = ground arith in
      let e = pop-Earliest pq v p in
      test-Releases now pq fuel v p e
        (release_below fuel now e.after e.valid (omega (arith, e.size)))
]

-- On the heap of a delayer, the loop that releases ends, within one round for each message and one
-- more. It releases the messages that are not after the current time, in the order of their times;
-- these and the ones left in the queue are the messages that were there, each as often as before;
-- the ones left are after the current time and form a heap again.
pub release-Releases :
    (now : Timeval) (pq : PQueue Delayed)
    → IsDelayer pq
    → Releases now pq (release (suc pq.current_size) now pq)
release-Releases now pq v = release_below (suc pq.current_size) now pq v (omega arith)
