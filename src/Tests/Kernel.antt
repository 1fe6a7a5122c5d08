-- ===== src/Tests/Kernel.antt =====
-- The parts of the kernel build.
use mathlib.Core.Logic.Or
use mathlib.Core.List.{eq-or-mem_of_mem-cons, mem-cons_self, not-mem-nil}
use native.Mathlib.Bridge.{le_prop}
use ip_noise.Common.{ℕ, zero, suc, ◌+◌, ◌*◌, ◌≡◌, refl, true, false, none, some, [], ◌∷◌, arith}
use ip_noise.Common.Int.{pos}
use ip_noise.Kernel.Delayer.{Entry, entry_cmp, KernelDelayer, kernel_alloc, check_pq, kernel_delay}
use ip_noise.Kernel.Delayer.Check.{Checks, check_pq-Checks}
use ip_noise.Kernel.Delayer.Order.{NoneBefore, IsEntries}
use ip_noise.Kernel.Delayer.Timer.{
  KernelSystem, KernelStep, KernelReached, IsTimely, KernelReached-IsTimely, KernelReached-Fires,
  Fires,
}
use ip_noise.Kernel.Mutex.{Semaphores, mutex_init, mutex_lock, mutex_unlock, Shared, Shared-admits}
use ip_noise.PQueue.{set_at, worse}
use ip_noise.PQueue.Heap.{IsQueue}
use ip_noise.PQueue.Items.{items}

-- A semaphore that is its count.
abbrev counters : Semaphores
counters = record {
  Semaphore = ℕ;
  init_mutex = 1;
  up = suc;
  down = λ n. elim n [ zero ↦ none | suc m ↦ some m ];
  count = λ n. n;
  count-init_mutex = refl;
  count-up = λ s. refl;
  down-waits = λ s e. rw e refl;
  down-takes = λ s n e. (n, rw e refl, refl);
}

-- Two threads hold the mutex.
two_inside : Shared counters 2 3
unfolding mutex_init mutex_lock
two_inside = Shared.locked (Shared.locked Shared.fresh refl) refl

Shared-admits_example :
    ((t : ℕ) × (mutex_lock counters 3 ≡ some t) × Shared counters 3 t)
    × ((t : ℕ) × (mutex_unlock counters 3 ≡ some t))
Shared-admits_example = Shared-admits counters two_inside

abbrev entry : ℕ → Entry
entry i = record { m = 100 + i; tv = 10 * i }

-- Two messages wait, for the times 10 and 20, and there is no timer.
abbrev two_delayed : KernelDelayer
two_delayed = record {
  pq = record { max_size = 2; current_size = 2; elements = entry; is_ascending = false };
  current_timer_initialized = false;
  current_timer = none;
}

two_delayed-IsQueue : IsQueue entry_cmp two_delayed.pq
unfolding worse entry_cmp
two_delayed-IsQueue = record {
  inside = omega arith;
  heap = λ c p l. let same : c ≡ 2 = omega arith in rw same refl;
}

two_delayed-nonzero : NoneBefore 1 (entry 2 ∷ entry 1 ∷ [])
two_delayed-nonzero a i =
    Or.elim le_prop (eq-or-mem_of_mem-cons i) (λ e. rw e (omega arith))
      λ j.
        Or.elim le_prop (eq-or-mem_of_mem-cons j) (λ e. rw e (omega arith))
          λ k. absurd (not-mem-nil k)

two_delayed-IsEntries : IsEntries two_delayed.pq
unfolding items
two_delayed-IsEntries = record {
  valid = two_delayed-IsQueue;
  earliest_first = refl;
  nonzero = two_delayed-nonzero;
}

check_pq-Checks_example : Checks 15 two_delayed.pq (check_pq 15 two_delayed)
check_pq-Checks_example =
    check_pq-Checks 15 two_delayed two_delayed-IsEntries (record { flag = refl; timer = refl })

abbrev nothing : ℕ → Entry
nothing i = entry 0

-- A message that came at the time 5, to be delayed by 100 milliseconds, 10 jiffies.
abbrev one_delayed : KernelSystem
one_delayed = record {
  delayer = record {
    pq = record {
      max_size = 10000;
      current_size = 1;
      elements = set_at nothing 1 (record { m = 7; tv = 15 });
      is_ascending = false;
    };
    current_timer_initialized = true;
    current_timer = some 15;
  };
  jiffies = 5;
  taken = record { m = 7; tv = 15 } ∷ [];
  released = [];
}

one_delayed-Reached : KernelReached 100 nothing 5 one_delayed
unfolding kernel_alloc kernel_delay
one_delayed-Reached =
    KernelReached.goes KernelReached.begins
      (KernelStep.delays 7 (pos 100) {tv = 15} {at_check = 5} refl (omega arith) (omega arith) refl)

KernelReached-IsTimely_example : IsTimely one_delayed
KernelReached-IsTimely_example = KernelReached-IsTimely one_delayed-Reached

due_now-Reached : KernelReached 100 nothing 5 (record one_delayed { jiffies = 16 })
due_now-Reached = KernelReached.goes one_delayed-Reached (KernelStep.ticks (omega arith))

KernelReached-Fires_example :
    Fires (record one_delayed { jiffies = 16 }) (record { m = 7; tv = 15 })
unfolding items set_at
KernelReached-Fires_example =
    KernelReached-Fires (record { m = 7; tv = 15 }) due_now-Reached mem-cons_self (omega arith)
