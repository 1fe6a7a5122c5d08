-- ===== src/Delayer.antt =====
-- The delayer of C/arbitrator/delayer.c, in the program's build: a priority queue of the messages that
-- wait for their time. A message is named by its address.
pub mod Order
pub mod Release
pub mod Delay
pub mod Thread
use Prim.Native.Nat.{Ordering}
use ip_noise.Common.{
  ℕ, zero, suc, Bool, true, false, not, ◌&&◌, ◌||◌, Option, none, some, List, [], ◌∷◌,
  if◌then◌else◌,
}
use ip_noise.Common.Fault.{◌>>=◌}
use ip_noise.Common.Int.{ℤ, ltb_ℤ}
use ip_noise.Model.{Timeval, gt, lt}
use ip_noise.PQueue.{PQueue, initialise, is_empty, peek_minimum, push, pop}
use ip_noise.Time.{add_delay, timeval_cmp}

-- ip_noise_delayer_pq_element_t
pub record Delayed : Type 0 where
  pub m : ℕ
  pub tv : Timeval

-- ip_noise_timeval_cmp, on the elements of the queue
unfoldable pub delayed_cmp : Delayed → Delayed → Ordering
unfolding timeval_cmp
delayed_cmp a b = timeval_cmp a.tv b.tv

-- The queue that ip_noise_delayer_alloc makes, for the contents of the new array.
unfoldable pub delayer_alloc : (ℕ → Delayed) → PQueue Delayed
unfolding initialise
delayer_alloc garbage = initialise 10000 false garbage

-- `(a.tv_sec < b.tv_sec) || ((a.tv_sec == b.tv_sec) && (a.tv_usec < b.tv_usec))`
unfoldable pub is_before : Timeval → Timeval → Bool
is_before a b =
    ltb_ℤ a.sec b.sec
    || ((not (ltb_ℤ a.sec b.sec) && not (ltb_ℤ b.sec a.sec)) && ltb_ℤ a.usec b.usec)

-- The condition for a signal, for the message that was the first one before.
unfoldable pub needs_signal : Option Delayed → Timeval → Timeval → Bool
unfolding is_before
needs_signal none tv current_time = true
needs_signal (some min_msg) tv current_time =
    is_before tv min_msg.tv || is_before min_msg.tv current_time

-- ip_noise_delayer_delay_packet: whether the condition is signalled, and the queue behind it.
unfoldable pub delay_packet : PQueue Delayed → ℕ → Timeval → ℤ → Option (Bool × PQueue Delayed)
unfolding add_delay peek_minimum push delayed_cmp needs_signal
delay_packet pq m tv delay_len = do
  later ← add_delay tv delay_len
  min_msg ← peek_minimum pq
  r ← push delayed_cmp pq (record { m = m; tv = later })
  some (needs_signal min_msg later tv, r)

-- `ip_noise_timeval_cmp(msg, &current_time_pseudo_msg) <= 0`
unfoldable pub is_due : Delayed → Timeval → Bool
unfolding timeval_cmp
is_due msg now = elim (timeval_cmp msg.tv now) [
  | Ordering.lt ↦ true
  | Ordering.eq ↦ true
  | Ordering.gt ↦ false
]

-- The first inner loop of ip_noise_delayer_loop: the messages that it releases, in this order, and the
-- queue behind it.
unfoldable pub release : ℕ → Timeval → PQueue Delayed → Option (List Delayed × PQueue Delayed)
unfolding is_empty peek_minimum pop delayed_cmp is_due
release zero now pq = none
release (suc fuel) now pq =
    let go : Delayed → Option (List Delayed × PQueue Delayed) =
      (λ msg. pop delayed_cmp pq >>= λ r. release fuel now r.1 >>= λ l. some (msg ∷ l.0, l.1)) in
    let test : Option (List Delayed × PQueue Delayed) =
      (peek_minimum pq >>= λ first.
      first >>= λ msg. if is_due msg now then go msg else some ([], pq)) in
    if is_empty pq then some ([], pq) else test

-- The time that the second inner loop waits for: `none` is a wait without a limit.
unfoldable pub deadline : PQueue Delayed → Option (Option Timeval)
unfolding is_empty peek_minimum
deadline pq =
    let timed : Option (Option Timeval) =
      (peek_minimum pq >>= λ first. first >>= λ msg. some (some msg.tv)) in
    if is_empty pq then some none else timed
