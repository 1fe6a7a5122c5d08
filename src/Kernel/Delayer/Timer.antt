-- ===== src/Kernel/Delayer/Timer.antt =====
-- The delayer of the kernel next to its callers, the kernel's timers and the clock. A step is one call,
-- and no call begins while another runs: the code means its mutex to bring this about, which it does not.
use mathlib.Core.List.Perm
use mathlib.Core.Logic.Or
use mathlib.Core.List.{Perm, Mem, Mem-prop, perm_middle, append_assoc, not-mem-nil, mem-append}
use mathlib.Core.Path.{subst}
use native.Mathlib.Bridge.{le_prop}
use native.Mathlib.Nat.{le_trans}
use ip_noise.Common.{
  ℕ, ◌≤◌, ◌<◌, ◌≡◌, refl, inl, inr, some, List, [], ◌∷◌, ◌++◌, arith, Option-cases,
}
use ip_noise.Common.Int.{ℤ}
use ip_noise.Kernel.Delayer.{
  Entry, KernelDelayer, kernel_alloc, timer_function, release_time, kernel_delay,
}
use ip_noise.Kernel.Delayer.Check.{Fits, IsArmed, timer_function-Checks}
use ip_noise.Kernel.Delayer.Delay.{kernel_delay-DelaysEntry}
use ip_noise.Kernel.Delayer.Release.{IsFirst}
use ip_noise.PQueue.Heap.{contents}
use ip_noise.PQueue.Items.{items}

-- `taken` are the messages that came in so far, with their times, and `released` what the callback got.
pub record KernelSystem : Type 0 where
  pub delayer : KernelDelayer
  pub jiffies : ℕ
  pub taken : List Entry
  pub released : List Entry

pub data KernelStep (hz : ℕ) (s : KernelSystem) : KernelSystem → Type 0 where
  -- The kernel calls the function of a timer whose time has come.
  fires :
      {t : ℕ} {l : List Entry} {d : KernelDelayer}
      → s.delayer.current_timer ≡ some t
      → t ≤ s.jiffies
      → timer_function s.jiffies s.delayer ≡ some (l, d)
      → KernelStep hz s (record s { delayer = d; released = s.released ++ l })
  -- The clock may go on within the call. A time of 0, behind an overflow, is excluded.
  delays :
      (m : ℕ) (delay_len : ℤ) {tv at_check : ℕ} {l : List Entry} {d : KernelDelayer}
      → release_time hz s.jiffies delay_len ≡ some tv
      → 0 < tv
      → s.jiffies ≤ at_check
      → kernel_delay hz s.jiffies at_check m delay_len s.delayer ≡ some (l, d)
      → KernelStep hz s (record {
        delayer = d;
        jiffies = at_check;
        taken = record { m = m; tv = tv } ∷ s.taken;
        released = s.released ++ l;
      })
  ticks : {later : ℕ} → s.jiffies ≤ later → KernelStep hz s (record s { jiffies = later })

-- The delayer starts with an empty queue.
abbrev pub kernel_init : (ℕ → Entry) → ℕ → KernelSystem
kernel_init garbage start = record {
  delayer = kernel_alloc garbage;
  jiffies = start;
  taken = [];
  released = [];
}

pub data KernelReached (hz : ℕ) (garbage : ℕ → Entry) (start : ℕ) : KernelSystem → Type 0 where
  begins : KernelReached hz garbage start (kernel_init garbage start)
  goes :
      {s t : KernelSystem}
      → KernelReached hz garbage start s
      → KernelStep hz s t
      → KernelReached hz garbage start t

-- The timer is for the earliest message; what came in was released, and was due, or it waits.
pub record IsTimely (s : KernelSystem) : Type 0 where
  pub armed : IsArmed s.delayer
  pub same : Perm (s.released ++ contents s.delayer.pq) s.taken
  pub due : (a : Entry) → Mem a s.released → a.tv ≤ s.jiffies

append-due :
    (now : ℕ) (k l : List Entry)
    → ((a : Entry) → Mem a k → a.tv ≤ now)
    → ((a : Entry) → Mem a l → a.tv ≤ now)
    → (a : Entry) → Mem a (k ++ l)
    → a.tv ≤ now
append-due now k l p q a i = Or.elim le_prop (mem-append.0 i) (p a) (q a)

fires-IsTimely :
    (s : KernelSystem) {l : List Entry} {d : KernelDelayer}
    → IsTimely s
    → timer_function s.jiffies s.delayer ≡ some (l, d)
    → IsTimely (record s { delayer = d; released = s.released ++ l })
fires-IsTimely s {l} {d} v h =
    let x = timer_function-Checks s.jiffies s.delayer v.armed in
    let y = x.runs in
    let list : x.released ≡ l = cc in
    let state : x.after ≡ d = cc in
    record {
      armed = subst IsArmed state x.armed;
      same =
          rw (← list, ← state, append_assoc)
            (Perm.trans (Perm.append_left s.released x.same) v.same);
      due = rw (← list) (append-due s.jiffies s.released x.released v.due x.due);
    }

delays-IsTimely :
    (hz : ℕ) (s : KernelSystem) (m : ℕ) (delay_len : ℤ) {tv at_check : ℕ} {l : List Entry}
    {d : KernelDelayer}
    → IsTimely s
    → release_time hz s.jiffies delay_len ≡ some tv
    → 0 < tv
    → s.jiffies ≤ at_check
    → kernel_delay hz s.jiffies at_check m delay_len s.delayer ≡ some (l, d)
    → IsTimely (record {
      delayer = d;
      jiffies = at_check;
      taken = record { m = m; tv = tv } ∷ s.taken;
      released = s.released ++ l;
    })
delays-IsTimely hz s m delay_len {tv} {at_check} {l} {d} v e p le h =
    let x = kernel_delay-DelaysEntry hz s.jiffies at_check m delay_len s.delayer v.armed e p in
    let y = x.runs in
    let list : x.released ≡ l = cc in
    let state : x.after ≡ d = cc in
    let new : Entry = record { m = m; tv = tv } in
    record {
      armed = subst IsArmed state x.armed;
      same =
          rw (← list, ← state, append_assoc)
            (Perm.trans (Perm.append_left s.released x.same)
              (Perm.trans (perm_middle s.released (contents s.delayer.pq)) (Perm.cons new v.same)));
      due =
          rw (← list)
            (append-due at_check s.released x.released (λ a i. le_trans (v.due a i) le) x.due);
    }

KernelStep-IsTimely : {hz : ℕ} {s t : KernelSystem} → IsTimely s → KernelStep hz s t → IsTimely t
KernelStep-IsTimely {s = s} v (KernelStep.fires e l h) = fires-IsTimely s v h
KernelStep-IsTimely {hz} {s} v (KernelStep.delays m delay_len e p l h) =
    delays-IsTimely hz s m delay_len v e p l h
KernelStep-IsTimely v (KernelStep.ticks l) = record {
  armed = v.armed;
  same = v.same;
  due = λ a i. le_trans (v.due a i) l;
}

kernel_init-IsTimely : (garbage : ℕ → Entry) (start : ℕ) → IsTimely (kernel_init garbage start)
unfolding kernel_alloc items
kernel_init-IsTimely garbage start = record {
  armed = record {
    entries = record {
      valid = record { inside = omega arith; heap = λ c p l. absurd (omega arith) };
      earliest_first = refl;
      nonzero = λ a i. absurd (not-mem-nil i);
    };
    flag = refl;
    timer = λ a i. not-mem-nil i;
  };
  same = Perm.rfl;
  due = λ a i. absurd (not-mem-nil i);
}

-- In every state that calls of the kernel's delayer, one at a time, the timers and a clock that
-- does not go back can reach, with no time of a message at 0: the queue is a heap; there is a
-- timer exactly if messages wait, and it is for the earliest of their times; and the messages that
-- came in are those that were released, all of them due by now, and those that wait, each once.
-- That the calls come one at a time is a condition, which the delayer's mutex does not bring
-- about.
pub KernelReached-IsTimely :
    {hz : ℕ} {garbage : ℕ → Entry} {start : ℕ} {s : KernelSystem}
    → KernelReached hz garbage start s
    → IsTimely s
KernelReached-IsTimely KernelReached.begins = kernel_init-IsTimely _ _
KernelReached-IsTimely (KernelReached.goes r t) = KernelStep-IsTimely (KernelReached-IsTimely r) t

-- The kernel has a timer whose time has come, and its function returns and releases the message.
pub record Fires (s : KernelSystem) (a : Entry) : Type 0 where
  pub expires : ℕ
  pub is_set : s.delayer.current_timer ≡ some expires
  pub is_over : expires ≤ s.jiffies
  pub gives : List Entry
  pub after : KernelDelayer
  pub runs : timer_function s.jiffies s.delayer ≡ some (gives, after)
  pub released : Mem a gives

-- The timer of a message that is due calls its function.
due-Fires :
    (s : KernelSystem) (a : Entry) (t : ℕ)
    → IsTimely s
    → s.delayer.current_timer ≡ some t
    → t ≤ a.tv
    → Mem a (contents s.delayer.pq)
    → a.tv ≤ s.jiffies
    → Fires s a
due-Fires s a t v e b i l =
    let x = timer_function-Checks s.jiffies s.delayer v.armed in
    record {
      expires = t;
      is_set = e;
      is_over = omega (arith, b, l);
      gives = x.released;
      after = x.after;
      runs = x.runs;
      released =
          Or.elim Mem-prop (mem-append.0 ((Perm.mem_iff x.same).1 i)) (λ k. k)
            (λ k. absurd (omega (arith, l, x.left a k)));
    }

-- In every state that calls of the kernel's delayer, one at a time, the timers and a clock that
-- does not go back can reach, with no time of a message at 0: if a message of the queue has come
-- to its time, the kernel has a timer whose time has come, and the function of this timer returns
-- and releases the message.
pub KernelReached-Fires :
    {hz : ℕ} {garbage : ℕ → Entry} {start : ℕ} {s : KernelSystem} (a : Entry)
    → KernelReached hz garbage start s
    → Mem a (contents s.delayer.pq)
    → a.tv ≤ s.jiffies
    → Fires s a
KernelReached-Fires {hz} {s = s} a r i l =
    let v = KernelReached-IsTimely r in
    let timer = v.armed.timer in
    elim (Option-cases s.delayer.current_timer) [
      | inl e ↦ absurd (subst (λ t. Fits t (contents s.delayer.pq)) e timer a i)
      | inr (t, e) ↦
          let f : IsFirst t (contents s.delayer.pq) =
            subst (λ t. Fits t (contents s.delayer.pq)) e timer in
          due-Fires s a t v e (f.1 a i) i l
    ]
