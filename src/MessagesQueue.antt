-- ===== src/MessagesQueue.antt =====
-- The queue of messages of C/arbitrator/queue.c, a linked list of messages that the callers own. A
-- message is named by its address; each call holds the mutex of the queue throughout.
pub mod Laws
pub mod Wait
use ip_noise.Common.{ℕ, ◌+◌, ◌-◌, Option, none, some, ◌==◌, if◌then◌else◌}

-- ip_noise_messages_queue_t, and the `next` fields of the messages
pub record MessagesQueue : Type 0 where
  pub next : ℕ → Option ℕ
  pub head : Option ℕ
  pub tail : Option ℕ
  pub num_msgs : ℕ

-- `msg->next = value`
unfoldable pub set_next : (ℕ → Option ℕ) → ℕ → Option ℕ → ℕ → Option ℕ
set_next next msg value i = if msg == i then value else next i

-- ip_noise_messages_queue_alloc, for the messages as they are
unfoldable pub queue_alloc : (ℕ → Option ℕ) → MessagesQueue
queue_alloc next = record { next = next; head = none; tail = none; num_msgs = 0 }

-- ip_noise_messages_queue_enqueue
unfoldable pub enqueue : MessagesQueue → ℕ → MessagesQueue
unfolding set_next
enqueue queue msg = elim queue.tail [
  | none ↦ record {
    next = set_next queue.next msg none;
    head = some msg;
    tail = some msg;
    num_msgs = queue.num_msgs + 1;
  }
  | some end ↦ record {
    next = set_next (set_next queue.next end (some msg)) msg none;
    head = queue.head;
    tail = some msg;
    num_msgs = queue.num_msgs + 1;
  }
]

-- ip_noise_messages_queue_dequeue, behind the wait: `none` is a queue that is empty all the same, whose
-- head is then used as NULL.
unfoldable pub dequeue : MessagesQueue → Option (ℕ × MessagesQueue)
dequeue queue = elim queue.head [
  | none ↦ none
  | some msg ↦ some (
    msg,
    record queue {
      head = queue.next msg;
      tail = elim (queue.next msg) [ none ↦ none | some m ↦ queue.tail ];
      num_msgs = queue.num_msgs - 1;
    },
  )
]
