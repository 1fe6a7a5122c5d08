-- ===== src/Kernel/Delayer/Delay.antt =====
-- ip_noise_delayer_delay_packet of the kernel build.
use mathlib.Core.List.Perm
use mathlib.Core.Logic.Or
use Prim.Native.Nat.{min}
use mathlib.Core.List.{Perm, Mem, eq-or-mem_of_mem-cons, mem-cons_of_mem, not-mem-nil}
use mathlib.Core.Path.{subst}
use native.Mathlib.Bridge.{le_prop}
use native.Mathlib.Decide.{ℕ_discrete}
use ip_noise.Common.{
  ℕ, suc, ◌≤◌, ◌<◌, ◌≡◌, refl, sym, ◌∙◌, inl, inr, false, Option, none, some, List, [], ◌∷◌, ◌++◌,
  arith, Bool-cases,
}
use ip_noise.Common.Int.{ℤ}
use ip_noise.Kernel.Delayer.{
  Entry, entry_cmp, KernelDelayer, first_tv, cancel, check_pq, release_time, must_check,
  kernel_delay,
}
use ip_noise.Kernel.Delayer.Check.{Fits, IsArmed, check_pq-Checks, cancel-IsIdle, cancel_pq}
use ip_noise.Kernel.Delayer.Order.{
  NoneBefore, InOrder, entry_cmp-Orders, IsEntries, pop-EarliestEntry, taken-Mem,
}
use ip_noise.PQueue.{PQueue, push}
use ip_noise.PQueue.Heap.{contents, Gives}
use ip_noise.PQueue.Pop.{pop_empty}
use ip_noise.PQueue.Push.{push-Gives}

-- The run has a result: some messages with times up to `now` may have been released, in order; the timer
-- is set for the earliest one that is left, if any.
pub record DelaysEntry (now : ℕ) (new : Entry) (pq : PQueue Entry)
    (run : Option (List Entry × KernelDelayer)) : Type 0 where
  pub released : List Entry
  pub after : KernelDelayer
  pub runs : run ≡ some (released, after)
  pub armed : IsArmed after
  pub same : Perm (released ++ contents after.pq) (new ∷ contents pq)
  pub due : (a : Entry) → Mem a released → a.tv ≤ now
  pub in_order : InOrder released

module _ (d : KernelDelayer) (v : IsArmed d) (m tv : ℕ) (nonzero : 0 < tv) where
  new : Entry
  new = record { m = m; tv = tv }

  placed :
      Gives entry_cmp d.pq.is_ascending
        (suc d.pq.current_size)
        (new ∷ contents d.pq)
        (push entry_cmp d.pq new)
  placed = push-Gives entry_cmp-Orders d.pq new v.entries.valid

  later : KernelDelayer
  later = record d { pq = placed.after }

  -- A bound of the messages that were there and of the new one.
  placed-NoneBefore :
      (t : ℕ) → NoneBefore t (contents d.pq) → t ≤ tv → NoneBefore t (contents placed.after)
  unfolding new
  placed-NoneBefore t h l a i =
      Or.elim le_prop (eq-or-mem_of_mem-cons ((Perm.mem_iff placed.same).0 i)) (λ q. rw q l) (h a)

  placed-IsEntries : IsEntries placed.after
  placed-IsEntries = record {
    valid = placed.valid;
    earliest_first = placed.direction ∙ v.entries.earliest_first;
    nonzero = placed-NoneBefore 1 v.entries.nonzero (omega arith);
  }

  check-DelaysEntry : (now : ℕ) → DelaysEntry now new d.pq (check_pq now (cancel later))
  unfolding later
  check-DelaysEntry now =
      let same_pq : (cancel later).pq ≡ placed.after = cancel_pq later in
      let c =
        check_pq-Checks now (cancel later) (subst IsEntries (sym same_pq) placed-IsEntries)
          (cancel-IsIdle later v.flag) in
      record {
        released = c.released;
        after = c.after;
        runs = c.runs;
        armed = c.armed;
        same =
            Perm.trans c.same
              (subst (λ q. Perm (contents q) (new ∷ contents d.pq)) (sym same_pq) placed.same);
        due = c.due;
        in_order = c.in_order;
      }

  -- The timer stays where the new message is not before the first one.
  stay-Fits :
      (t : Option ℕ) (e : Entry)
      → Mem e (contents d.pq)
      → NoneBefore e.tv (contents d.pq)
      → e.tv ≤ tv
      → Fits t (contents d.pq)
      → Fits t (contents placed.after)
  unfolding new
  stay-Fits none e i h l f = absurd (f e i)
  stay-Fits (some t) e i h l f = (
    (Perm.mem_iff (Perm.map (λ a. a.tv) placed.same)).1 (mem-cons_of_mem tv f.0),
    placed-NoneBefore t f.1 (omega (arith, f.1 e i)),
  )

  stay-DelaysEntry :
      (now : ℕ) (e : Entry)
      → Mem e (contents d.pq)
      → NoneBefore e.tv (contents d.pq)
      → e.tv ≤ tv
      → DelaysEntry now new d.pq (some ([], later))
  unfolding later
  stay-DelaysEntry now e i h l = record {
    released = [];
    after = later;
    runs = refl;
    armed = record {
      entries = placed-IsEntries;
      flag = v.flag;
      timer = stay-Fits d.current_timer e i h l v.timer;
    };
    same = placed.same;
    due = λ a k. absurd (not-mem-nil k);
    in_order = tt;
  }

unchecked : (min tv now : ℕ) → must_check min tv now ≡ false → min ≤ tv
unfolding must_check
unchecked min tv now h = ground arith

-- For a delayer whose timer is set for its earliest message, if the time of the release can be computed
-- and is not 0, ip_noise_delayer_delay_packet has a result: a timer is never added while one runs;
-- what is released, in order, is due, and with the messages left it is the ones that were there and
-- the new one, each as often as before; the timer is set for the earliest message that is left, if any.
pub kernel_delay-DelaysEntry :
    (hz now at_check m : ℕ) (delay_len : ℤ) (d : KernelDelayer) {tv : ℕ}
    → IsArmed d
    → release_time hz now delay_len ≡ some tv
    → 0 < tv
    → DelaysEntry at_check
        (record { m = m; tv = tv })
        d.pq
        (kernel_delay hz now at_check m delay_len d)
unfolding kernel_delay new later first_tv
kernel_delay-DelaysEntry hz now at_check m delay_len d {tv} v h p =
    let put = placed d v m tv p in
    elim (ℕ_discrete d.pq.current_size 0) [
      | yes z ↦
          let none_first = (pop_empty entry_cmp-Orders d.pq z).1 in
          rw (h, none_first, put.runs) (unfold must_check in check-DelaysEntry d v m tv p at_check)
      | no nz ↦
          let e = pop-EarliestEntry d.pq v.entries.valid v.entries.earliest_first (ground arith) in
          rw (h, e.peek, put.runs)
            (elim (Bool-cases (must_check e.taken.tv tv now)) [
              | inl c ↦ rw c (check-DelaysEntry d v m tv p at_check)
              | inr c ↦ rw c (
                  stay-DelaysEntry d v m tv p at_check e.taken (taken-Mem e) e.first
                    (unchecked e.taken.tv tv now c))
            ])
    ]
