-- ===== src/MessagesQueue/Wait.antt =====
-- The waiting of ip_noise_messages_queue_dequeue of C/arbitrator/queue.c: the thread that takes the
-- messages out, next to those that put them in. A step is what a thread does while it holds the mutex.
pub mod Laws
use ip_noise.Common.{ℕ, ◌≡◌, Bool, true, false, ◌||◌, Option, none, some, List, [], ◌∷◌, ◌++◌, ◌==◌}
use ip_noise.Common.Fault.{◌>>=◌}
use ip_noise.MessagesQueue.{MessagesQueue, queue_alloc, enqueue, dequeue}
use ip_noise.MessagesQueue.Laws.{NotIn, IsQueue}

-- Where the thread that takes messages out is: about to call, or in its wait.
pub data Place : Type 0 where
  calling blocked : Place

-- `signalled` says that the wait was signalled; `come` are the messages that were put in so far, and
-- `taken` those that the calls returned.
pub record Waiter : Type 0 where
  pub queue : MessagesQueue
  pub place : Place
  pub signalled : Bool
  pub come : List ℕ
  pub taken : List ℕ

-- What the end of ip_noise_messages_queue_dequeue does: `none` is the use of NULL as a message.
unfoldable pub take_first : Waiter → Option Waiter
unfolding dequeue
take_first w = do
  r ← dequeue w.queue
  some (record w {
    queue = r.1;
    place = Place.calling;
    signalled = false;
    taken = w.taken ++ r.0 ∷ [];
  })

-- The thread moves: it calls, and waits if the queue is empty, or goes on behind its wait.
unfoldable pub moves_on : Place → Waiter → Option Waiter
unfolding take_first
moves_on calling w = elim w.queue.head [
  | none ↦ some (record w { place = Place.blocked })
  | some msg ↦ take_first w
]
moves_on blocked w = take_first w

-- `if (queue->num_msgs == 1)`, behind the increment; a signal is lost on a thread that does not wait.
unfoldable pub signals : Place → MessagesQueue → Bool
signals calling queue = false
signals blocked queue = queue.num_msgs == 1

-- ip_noise_messages_queue_enqueue
unfoldable pub puts : ℕ → Waiter → Waiter
unfolding enqueue signals
puts msg w =
    let queue = enqueue w.queue msg in
    record w {
      queue = queue;
      signalled = w.signalled || signals w.place queue;
      come = w.come ++ msg ∷ [];
    }

-- The thread may move: it does not wait, or was signalled.
abbrev pub may_move : Place → Bool → Bool
may_move calling signalled = true
may_move blocked signalled = signalled

pub data WaiterStep (w : Waiter) : Waiter → Type 0 where
  -- a message at an address that is not in the queue
  comes :
      (msg : ℕ)
      → ((queued : List ℕ) → IsQueue w.queue queued → NotIn msg queued)
      → WaiterStep w (puts msg w)
  moves :
      {v : Waiter}
      → may_move w.place w.signalled ≡ true
      → moves_on w.place w ≡ some v
      → WaiterStep w v

-- The states that they reach where no wait ends without a signal.
pub data WaiterReached (next : ℕ → Option ℕ) : Waiter → Type 0 where
  empties : WaiterReached next (record {
    queue = queue_alloc next;
    place = Place.calling;
    signalled = false;
    come = [];
    taken = [];
  })
  onward : {v w : Waiter} → WaiterReached next v → WaiterStep v w → WaiterReached next w
