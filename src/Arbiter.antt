-- ===== src/Arbiter.antt =====
-- The threads of C/arbitrator/main.c that pass the packets on: from the queue of messages to the packet
-- logic, and from there to a verdict at once or to the delayer. A message is named by its address. What
-- ipq_set_verdict of libipq is called with is kept; it is taken to succeed, since the program ends if it
-- does not.
pub mod Shares
pub mod Reach
pub mod Account
use ip_noise.Common.{ℕ, suc, Bool, true, false, Option, some, List, [], ◌∷◌, ◌==◌, if◌then◌else◌}
use ip_noise.Common.Fault.{◌>>=◌}
use ip_noise.Common.Int.{ℤ}
use ip_noise.Delayer.{Delayed, delay_packet, release}
use ip_noise.MessagesQueue.{MessagesQueue, enqueue, dequeue}
use ip_noise.Model.{Externals, Timeval, Data, Env}
use ip_noise.PQueue.{PQueue}
use ip_noise.Packet.Decide.{decide_packet}
use ip_noise.Packet.Verdict.{delay, drop, Action, accept}

-- A message: the number that the kernel gave its packet, the bytes of the packet, and the time at which
-- it was read. Two messages can have the same packet.
pub record Message : Type 0 where
  pub packet_id : ℕ
  pub payload : List ℕ
  pub tv : Timeval

-- What the buffer of main holds, by ipq_message_type: NLMSG_ERROR with its number, IPQM_PACKET, or any
-- other type.
pub data IpqMessage : Type 0 where
  error_message : ℕ → IpqMessage
  packet : Message → IpqMessage
  unknown : IpqMessage

-- A call of ipq_set_verdict: the message it was made for, the number of the packet, and whether the packet
-- is let through (NF_ACCEPT) or not (NF_DROP).
pub record Answer : Type 0 where
  pub m : ℕ
  pub packet_id : ℕ
  pub is_accepted : Bool

module _ (x : Externals) where
  -- What the threads share.
  pub record Arbiter : Type 0 where
    pub messages : ℕ → Message
    pub queue : MessagesQueue
    pub data_in_use : Data x
    pub env : Env
    pub pq : PQueue Delayed
    pub answers : List Answer

  unfoldable pub set_verdict : ℕ → Bool → Arbiter → Arbiter
  set_verdict m is_accepted s = record s {
    answers =
        record { m = m; packet_id = (s.messages m).packet_id; is_accepted = is_accepted }
        ∷ s.answers;
  }

  -- What the thread does with a message once the packet logic has decided.
  unfoldable pub act : Action → ℕ → Arbiter → Option Arbiter
  unfolding set_verdict delay_packet
  act accept m s = some (set_verdict m true s)
  act drop m s = some (set_verdict m false s)
  act (delay d) m s = do r ← delay_packet s.pq m (s.messages m).tv d; some (record s { pq = r.1 })

  -- One round of the loop of ip_noise_decide_what_to_do_with_packets_thread_func
  unfoldable pub arbitrate : Arbiter → Option Arbiter
  unfolding dequeue decide_packet act
  arbitrate s = do
    r ← dequeue s.queue
    d ← decide_packet x s.data_in_use (s.messages r.0).payload s.env
    act d.0 r.0 (record s { queue = r.1; data_in_use = d.1; env = d.2 })

  -- ip_noise_delayer_release_function, for the messages that the delayer releases
  unfoldable pub release_all : List Delayed → Arbiter → Arbiter
  unfolding set_verdict
  release_all [] s = s
  release_all (a ∷ l) s = release_all l (set_verdict a.m true s)

  -- The delayer's turn at the time `current`
  unfoldable pub release_due : Timeval → Arbiter → Option Arbiter
  unfolding release release_all
  release_due current s = do
    r ← release (suc s.pq.current_size) current s.pq
    some (release_all r.0 (record s { pq = r.1 }))

  -- The branch IPQM_PACKET of the loop of main, for a message at an address that is not in the queue
  unfoldable pub receive : ℕ → Message → Arbiter → Arbiter
  unfolding enqueue
  receive m message s = record s {
    messages = λ i. if m == i then message else s.messages i;
    queue = enqueue s.queue m;
  }

  -- The body of the loop of main, for what ipq_read returns, what the buffer holds then, and the address
  -- that malloc gives. A negative status is ignored.
  unfoldable pub read_round : ℤ → IpqMessage → ℕ → Arbiter → Arbiter
  unfolding receive
  read_round status (error_message errno) m s = s
  read_round status (packet message) m s = receive m message s
  read_round status unknown m s = s
