-- ===== src/Arbiter/Reach.antt =====
-- The states that the threads reach together, and the account of the messages.
use mathlib.Core.List.{Perm}
use ip_noise.Arbiter.{
  Message, IpqMessage, error_message, packet, unknown, Answer, Arbiter, arbitrate, release_due,
  read_round,
}
use ip_noise.Common.{ℕ, ◌≡◌, Option, some, List, [], ◌∷◌, ◌++◌, map}
use ip_noise.Common.Int.{ℤ}
use ip_noise.Delayer.{Delayed, delayer_alloc}
use ip_noise.Delayer.Order.{IsDelayer}
use ip_noise.MessagesQueue.{queue_alloc}
use ip_noise.MessagesQueue.Laws.{NotIn, IsQueue}
use ip_noise.Model.{Externals, Timeval, Data, Env}
use ip_noise.PQueue.Heap.{contents}

-- The addresses of the messages that wait for their time, and of those that were answered.
abbrev pub delayed_ids : List Delayed → List ℕ
delayed_ids l = map (λ a. a.m) l

abbrev pub answered_ids : List Answer → List ℕ
answered_ids l = map (λ a. a.m) l

-- The messages that have come in, once the buffer of main is handled.
abbrev pub with_read : IpqMessage → ℕ → List ℕ → List ℕ
with_read (error_message errno) m l = l
with_read (packet message) m l = m ∷ l
with_read unknown m l = l

module _ {x : Externals} where
  -- The states that the threads reach, and the messages that have come in, the last one first. The other
  -- threads may change the data in use at any time.
  pub data Reached : List ℕ → Arbiter x → Type 0 where
    begin :
        (messages : ℕ → Message) (next : ℕ → Option ℕ) (data_in_use : Data x) (env : Env)
        (garbage : ℕ → Delayed)
        → Reached [] (record {
          messages = messages;
          queue = queue_alloc next;
          data_in_use = data_in_use;
          env = env;
          pq = delayer_alloc garbage;
          answers = [];
        })
    reads :
        {l : List ℕ} {s : Arbiter x} (status : ℤ) (message : IpqMessage) (m : ℕ)
        → Reached l s
        → ((queued : List ℕ) → IsQueue s.queue queued → NotIn m queued)
        → Reached (with_read message m l) (read_round x status message m s)
    arbitrates : {l : List ℕ} {s t : Arbiter x} → Reached l s → arbitrate x s ≡ some t → Reached l t
    releases :
        {l : List ℕ} {s t : Arbiter x} (current : Timeval)
        → Reached l s
        → release_due x current s ≡ some t
        → Reached l t
    configures :
        {l : List ℕ} {s : Arbiter x} (data_in_use : Data x) (env : Env)
        → Reached l s
        → Reached l (record s { data_in_use = data_in_use; env = env })

  -- Each message that has come in is in the queue, waits for its time or was answered, once.
  pub record Accounts (l : List ℕ) (s : Arbiter x) : Type 0 where
    pub queued : List ℕ
    pub is_queue : IsQueue s.queue queued
    pub delayer : IsDelayer s.pq
    pub account : Perm (queued ++ (delayed_ids (contents s.pq) ++ answered_ids s.answers)) l
