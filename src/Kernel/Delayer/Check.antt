-- ===== src/Kernel/Delayer/Check.antt =====
-- ip_noise_delayer_check_pq and ip_noise_delayer_delay_packet set the timer to the earliest message.
use mathlib.Core.List.{Perm, Mem, not-mem-nil}
use mathlib.Core.Path.{subst}
use native.Mathlib.Decide.{ℕ_discrete}
use ip_noise.Common.{
  ℕ, suc, ◌≤◌, ◌<◌, ◌≡◌, refl, sym, inl, inr, Bool, true, false, Option, none, some, List, ◌++◌,
  arith, Bool-cases, Option-cases,
}
use ip_noise.Kernel.Delayer.{
  Entry, KernelDelayer, add_timer, cancel, set_timer, check_pq, timer_function,
}
use ip_noise.Kernel.Delayer.Order.{NoneBefore, InOrder, IsEntries}
use ip_noise.Kernel.Delayer.Release.{IsFirst, release_entries-Releases}
use ip_noise.PQueue.{PQueue}
use ip_noise.PQueue.Heap.{contents, not_empty, empty}
use ip_noise.PQueue.Items.{items}

abbrev pub is_set : Option ℕ → Bool
is_set none = false
is_set (some t) = true

-- There is a timer exactly if there are entries, and it is for the earliest one.
abbrev pub Fits : Option ℕ → List Entry → Type 0
Fits none l = (a : Entry) → Mem a l → ⊥
Fits (some t) l = IsFirst t l

pub record IsArmed (d : KernelDelayer) : Type 0 where
  pub entries : IsEntries d.pq
  pub flag : d.current_timer_initialized ≡ is_set d.current_timer
  pub timer : Fits d.current_timer (contents d.pq)

-- The delayer has no timer.
pub record IsIdle (d : KernelDelayer) : Type 0 where
  pub flag : d.current_timer_initialized ≡ false
  pub timer : d.current_timer ≡ none

-- The run has a result: the entries with times up to `now` are released, in order, and no others; the
-- timer is set for the earliest one that is left, if any.
pub record Checks (now : ℕ) (pq : PQueue Entry) (run : Option (List Entry × KernelDelayer))
    : Type 0 where
  pub released : List Entry
  pub after : KernelDelayer
  pub runs : run ≡ some (released, after)
  pub armed : IsArmed after
  pub same : Perm (released ++ contents after.pq) (contents pq)
  pub due : (a : Entry) → Mem a released → a.tv ≤ now
  pub in_order : InOrder released
  pub left : NoneBefore (suc now) (contents after.pq)

-- What set_timer gives.
record Sets (d : KernelDelayer) (run : Option KernelDelayer) : Type 0 where
  after : KernelDelayer
  runs : run ≡ some after
  queue : after.pq ≡ d.pq
  armed : IsArmed after

set_timer-Sets :
    (d : KernelDelayer) (msg : Option ℕ)
    → IsEntries d.pq
    → IsIdle d
    → (0 < d.pq.current_size → (t : ℕ) × (msg ≡ some t) × IsFirst t (contents d.pq))
    → Sets d (set_timer d msg)
unfolding set_timer add_timer items
set_timer-Sets d msg v i stopped = elim (ℕ_discrete d.pq.current_size 0) [
  | yes z ↦ rw (empty d.pq z) (record {
    after = d;
    runs = refl;
    queue = refl;
    armed = record {
      entries = v;
      flag = rw i.timer i.flag;
      timer =
          subst (λ t. Fits t (contents d.pq)) (sym i.timer)
            (λ a m. not-mem-nil (subst (λ n. Mem a (items d.pq.elements n)) z m));
    };
  })
  | no nz ↦
      let p : 0 < d.pq.current_size = ground arith in
      let (t, e, f) = stopped p in
      rw (not_empty d.pq p, e, i.timer)
        (record {
          after = record d { current_timer = some t; current_timer_initialized = true };
          runs = refl;
          queue = refl;
          armed = record { entries = v; flag = refl; timer = f };
        })
]

-- On a heap of messages with times that are not 0, and without a timer, ip_noise_delayer_check_pq
-- ends, within one round for each message and one more. It releases the messages with times up to
-- the current one, in the order of their times; these and the ones left are the messages that were
-- there, each as often as before; if some are left, one timer is added, for the earliest of their
-- times.
pub check_pq-Checks :
    (now : ℕ) (d : KernelDelayer) → IsEntries d.pq → IsIdle d → Checks now d.pq (check_pq now d)
unfolding check_pq
check_pq-Checks now d v i =
    let x = release_entries-Releases (suc d.pq.current_size) now none d.pq v (omega arith) in
    let r : KernelDelayer = record d { pq = x.after } in
    let s = set_timer-Sets r x.msg x.valid (record { flag = i.flag; timer = i.timer }) x.stopped in
    rw (x.runs, s.runs)
      (record {
        released = x.released;
        after = s.after;
        runs = refl;
        armed = s.armed;
        same = subst (λ q. Perm (x.released ++ contents q) (contents d.pq)) (sym s.queue) x.same;
        due = x.due;
        in_order = x.in_order;
        left = subst (λ q. NoneBefore (suc now) (contents q)) (sym s.queue) x.left;
      })

pub timer_function-Checks :
    (now : ℕ) (d : KernelDelayer) → IsArmed d → Checks now d.pq (timer_function now d)
unfolding timer_function
timer_function-Checks now d a =
    check_pq-Checks now (record d { current_timer_initialized = false; current_timer = none })
      a.entries (record { flag = refl; timer = refl })

pub cancel-IsIdle :
    (d : KernelDelayer) → d.current_timer_initialized ≡ is_set d.current_timer → IsIdle (cancel d)
unfolding cancel
cancel-IsIdle d f = elim (Option-cases d.current_timer) [
  | inl e ↦
      let g : d.current_timer_initialized ≡ false = rw e at f in
      rw g (record { flag = refl; timer = e })
  | inr (t, e) ↦
      let g : d.current_timer_initialized ≡ true = rw e at f in
      rw g (record { flag = refl; timer = refl })
]

pub cancel_pq : (d : KernelDelayer) → (cancel d).pq ≡ d.pq
unfolding cancel
cancel_pq d = elim (Bool-cases d.current_timer_initialized) [
  | inl e ↦ rw e refl
  | inr e ↦ rw e refl
]
