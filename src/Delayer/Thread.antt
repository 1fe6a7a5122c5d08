-- ===== src/Delayer/Thread.antt =====
-- The thread of the delayer, ip_noise_delayer_loop, next to the threads that call
-- ip_noise_delayer_delay_packet. A step is what a thread does between taking the mutex and giving it up.
pub mod Wake
pub mod Progress
use ip_noise.Common.{ℕ, suc, ◌≡◌, ◌⊎◌, Bool, true, false, ◌||◌, Option, some, List, [], ◌++◌}
use ip_noise.Common.Int.{ℤ, pos, negsuc, ◌≤ℤ◌}
use ip_noise.Delayer.{Delayed, delayer_alloc, delay_packet, release, deadline}
use ip_noise.Delayer.Order.{NotAfter}
use ip_noise.Model.{Timeval}
use ip_noise.PQueue.{PQueue}

-- Where the thread is, outside of the mutex: on its way into the outer loop, or in a wait up to a time.
pub data Phase : Type 0 where
  checking : Phase
  waiting : Option Timeval → Phase

-- `signalled` says that the wait of the thread has been signalled, `released` what the callback got
-- so far.
pub record System : Type 0 where
  pub pq : PQueue Delayed
  pub now : Timeval
  pub phase : Phase
  pub signalled : Bool
  pub released : List Delayed

-- A signal is lost on a thread that does not wait.
abbrev pub hears : Phase → Bool → Bool
hears checking signal = false
hears (waiting w) signal = signal

-- A step of the thread that must come when the thread gets the processor.
pub data Turn (s : System) : System → Type 0 where
  -- The outer loop: it takes the mutex, reads the clock, releases and waits.
  check :
      {l : List Delayed} {r : PQueue Delayed} {w : Option Timeval}
      → s.phase ≡ Phase.checking
      → release (suc s.pq.current_size) s.now s.pq ≡ some (l, r)
      → deadline r ≡ some w
      → Turn s (record s {
        pq = r;
        phase = Phase.waiting w;
        signalled = false;
        released = s.released ++ l;
      })
  -- A wait that was signalled ends with the status 0, and the thread waits again.
  woken :
      {v w : Option Timeval}
      → s.phase ≡ Phase.waiting v
      → s.signalled ≡ true
      → deadline s.pq ≡ some w
      → Turn s (record s { phase = Phase.waiting w; signalled = false })
  -- A wait ends at its time.
  timed_out :
      {d : Timeval}
      → s.phase ≡ Phase.waiting (some d)
      → NotAfter d s.now
      → Turn s (record s { phase = Phase.checking; signalled = false })

-- A step of any thread, or of the clock.
pub data Step (s : System) : System → Type 0 where
  turn : {t : System} → Turn s t → Step s t
  -- A wait ends with the status 0 for no reason.
  spurious :
      {v w : Option Timeval}
      → s.phase ≡ Phase.waiting v
      → deadline s.pq ≡ some w
      → Step s (record s { phase = Phase.waiting w; signalled = false })
  -- A wait for a time that is not valid fails.
  refused :
      {d : Timeval}
      → s.phase ≡ Phase.waiting (some d)
      → (pos 1000000 ≤ℤ d.usec) ⊎ (d.usec ≤ℤ negsuc 0)
      → Step s (record s { phase = Phase.checking; signalled = false })
  delay :
      (m : ℕ) (tv : Timeval) (delay_len : ℤ) {signal : Bool} {r : PQueue Delayed}
      → delay_packet s.pq m tv delay_len ≡ some (signal, r)
      → Step s (record s { pq = r; signalled = s.signalled || hears s.phase signal })
  tick : (later : Timeval) → NotAfter s.now later → Step s (record s { now = later })

-- The thread starts with an empty queue.
abbrev pub init : (ℕ → Delayed) → Timeval → System
init garbage start = record {
  pq = delayer_alloc garbage;
  now = start;
  phase = Phase.checking;
  signalled = false;
  released = [];
}

pub data Reached (garbage : ℕ → Delayed) (start : Timeval) : System → Type 0 where
  begin : Reached garbage start (init garbage start)
  later : {s t : System} → Reached garbage start s → Step s t → Reached garbage start t

-- At most `n` steps, of the thread alone.
pub data Turns (s : System) : ℕ → System → Type 0 where
  stay : {n : ℕ} → Turns s n s
  go : {n : ℕ} {t u : System} → Turns s n t → Turn t u → Turns s (suc n) u
