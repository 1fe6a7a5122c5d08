-- ===== src/Kernel/Delayer.antt =====
-- The delayer of C/arbitrator/delayer.c in the kernel build, where a timer of the kernel releases the
-- messages in place of a thread. A time is a number of jiffies, an unsigned long of 32 bits.
pub mod Order
pub mod Release
pub mod Check
pub mod Delay
pub mod Timer
use Prim.Native.Nat.{Ordering, min}
use ip_noise.Common.{
  ℕ, zero, suc, ◌+◌, ◌-◌, ◌%◌, ◌^◌, Bool, true, false, ◌||◌, Option, none, some, List, [], ◌∷◌, ltb,
  ◌==◌, if◌then◌else◌,
}
use ip_noise.Common.Fault.{◌>>=◌}
use ip_noise.Common.Int.{ℤ, pos, negsuc, div_ℤ, scale, int_or_fault}
use ip_noise.PQueue.{PQueue, initialise, is_empty, peek_minimum, push, pop}

-- ip_noise_delayer_pq_element_t; the message, a pair of pointers, is named by its address.
pub record Entry : Type 0 where
  pub m : ℕ
  pub tv : ℕ

-- ip_noise_timeval_cmp
unfoldable pub entry_cmp : Entry → Entry → Ordering
entry_cmp m1 m2 =
    if ltb m2.tv m1.tv then Ordering.gt else if ltb m1.tv m2.tv then Ordering.lt else Ordering.eq

-- ip_noise_delayer_t: `current_timer` is the time of the timer that was added to the kernel's, and
-- `none` if there is none.
pub record KernelDelayer : Type 0 where
  pub pq : PQueue Entry
  pub current_timer_initialized : Bool
  pub current_timer : Option ℕ

-- ip_noise_delayer_alloc, for the contents of the new array
unfoldable pub kernel_alloc : (ℕ → Entry) → KernelDelayer
unfolding initialise
kernel_alloc garbage = record {
  pq = initialise 10000 false garbage;
  current_timer_initialized = false;
  current_timer = none;
}

-- The field `tv` of what PQueuePeekMinimum returns: 0 for an empty queue.
unfoldable pub first_tv : Option Entry → ℕ
first_tv none = 0
first_tv (some msg) = msg.tv

-- add_timer: a timer must not be added twice.
unfoldable pub add_timer : ℕ → Option ℕ → Option (Option ℕ)
add_timer expires none = some (some expires)
add_timer expires (some t) = none

-- `if (current_timer_initialized) { del_timer; current_timer_initialized = 0; }`
unfoldable pub cancel : KernelDelayer → KernelDelayer
cancel d =
    if d.current_timer_initialized
    then record d { current_timer_initialized = false; current_timer = none }
    else d

-- The loop of ip_noise_delayer_check_pq, for the time that is left in the variable `msg`: the messages
-- that it releases, in this order, the queue behind it, and the time in `msg`.
unfoldable pub release_entries :
    ℕ → ℕ → Option ℕ → PQueue Entry → Option (List Entry × PQueue Entry × Option ℕ)
unfolding is_empty peek_minimum pop entry_cmp first_tv
release_entries zero now msg pq = none
release_entries (suc fuel) now msg pq =
    let go : Entry → Option (List Entry × PQueue Entry × Option ℕ) = (λ first.
      pop entry_cmp pq >>= λ r.
      release_entries fuel now (some first.tv) r.1 >>= λ l. some (first ∷ l.0, l.1, l.2)) in
    let test : Entry → Option (List Entry × PQueue Entry × Option ℕ) =
      (λ first. if ltb now first.tv then some ([], pq, some first.tv) else go first) in
    let round : Option (List Entry × PQueue Entry × Option ℕ) =
      (peek_minimum pq >>= λ top.
      if first_tv top == 0 then some ([], pq, some 0) else top >>= test) in
    if is_empty pq then some ([], pq, msg) else round

-- The end of ip_noise_delayer_check_pq. A read of `msg` that was never set is a fault.
unfoldable pub set_timer : KernelDelayer → Option ℕ → Option KernelDelayer
unfolding is_empty add_timer
set_timer d msg =
    let timed : Option KernelDelayer =
      (msg >>= λ tv. add_timer tv d.current_timer >>= λ t.
      some (record d { current_timer = t; current_timer_initialized = true })) in
    if is_empty d.pq then some d else timed

-- ip_noise_delayer_check_pq at the time `now`
unfoldable pub check_pq : ℕ → KernelDelayer → Option (List Entry × KernelDelayer)
unfolding release_entries set_timer
check_pq now d = release_entries (suc d.pq.current_size) now none d.pq >>= λ l.
    set_timer (record d { pq = l.1 }) l.2 >>= λ r. some (l.0, r)

-- ip_noise_delayer_timer_function: the kernel has taken the timer out of its list.
unfoldable pub timer_function : ℕ → KernelDelayer → Option (List Entry × KernelDelayer)
unfolding check_pq
timer_function now d =
    check_pq now (record d { current_timer_initialized = false; current_timer = none })

-- ip_noise_delayer_destroy, before the memory is freed
unfoldable pub destroy : KernelDelayer → KernelDelayer
unfolding cancel
destroy d = cancel d

-- `a + b` for an unsigned long and an int
unfoldable pub add_jiffies : ℕ → ℤ → ℕ
add_jiffies now (pos n) = (now + n) % 2 ^ 32
add_jiffies now (negsuc n) = (now + 2 ^ 32 - suc n % 2 ^ 32) % 2 ^ 32

-- `current_time + ((HZ * delay_len) / 1000)`
unfoldable pub release_time : ℕ → ℕ → ℤ → Option ℕ
unfolding int_or_fault scale div_ℤ add_jiffies
release_time hz now delay_len = do
  product ← int_or_fault (scale hz delay_len)
  some (add_jiffies now (div_ℤ product 1000))

-- The test of ip_noise_delayer_delay_packet
unfoldable pub must_check : ℕ → ℕ → ℕ → Bool
must_check min tv current_time = min == 0 || (ltb tv min || ltb min current_time)

-- ip_noise_delayer_delay_packet, where jiffies is `now` at its start and `at_check` in
-- ip_noise_delayer_check_pq
unfoldable pub kernel_delay :
    ℕ → ℕ → ℕ → ℕ → ℤ → KernelDelayer → Option (List Entry × KernelDelayer)
unfolding release_time peek_minimum push entry_cmp first_tv must_check cancel check_pq
kernel_delay hz now at_check m delay_len d = release_time hz now delay_len >>= λ tv.
    peek_minimum d.pq >>= λ min. push entry_cmp d.pq (record { m = m; tv = tv }) >>= λ r.
    let later : KernelDelayer = record d { pq = r } in
    if must_check (first_tv min) tv now then check_pq at_check (cancel later) else some ([], later)
