-- ===== src/Iface/Pipes.antt =====
-- The two threads of C/arbitrator/iface.c that carry bytes between the named pipes and the queues, one
-- byte at a time: poll_conn and write_poll_conn.
pub mod Laws
use ip_noise.TextQueue.Out
use ip_noise.Common.{length as len}
use ip_noise.Common.{
  ℕ, ◌≤◌, Bool, true, false, Option, none, some, List, [], ◌∷◌, ◌++◌, ◌==◌, if◌then◌else◌,
}
use ip_noise.TextQueue.In.{TextQueueIn, put_bytes, set_conn_closed}
use ip_noise.TextQueue.Out.{TextQueueOut, grow_by, write_bytes, input_bytes}

-- One round of the loop of poll_conn, for what ip_noise_conn_read gives, a byte, or -1, `none`: the queue,
-- and whether the loop goes on.
unfoldable pub poll_conn : Option ℕ → TextQueueIn → TextQueueIn × Bool
unfolding put_bytes set_conn_closed
poll_conn none q = (set_conn_closed q, false)
poll_conn (some byte) q = (put_bytes q (byte ∷ []), true)

-- The loop, for the bytes that come through the pipe before its end.
unfoldable pub poll_conn_loop : List ℕ → TextQueueIn → TextQueueIn
unfolding poll_conn
poll_conn_loop [] q = (poll_conn none q).0
poll_conn_loop (byte ∷ bytes) q = poll_conn_loop bytes (poll_conn (some byte) q).0

-- One round of the loop of write_poll_conn: what is given to ip_noise_conn_write, and the queue.
unfoldable pub write_poll_conn : TextQueueOut → List ℕ × TextQueueOut
unfolding write_bytes
write_poll_conn q = let r = write_bytes q 1 in if len r.0 == 1 then (r.0, r.1) else ([], r.1)

-- The output queue of one connection and its two threads: `given` is what the transactions wrote so far,
-- `sent` what went into the pipe.
pub record Line : Type 0 where
  pub queue : TextQueueOut
  pub given : List ℕ
  pub sent : List ℕ

pub data LineStep (l : Line) : Line → Type 0 where
  -- ip_noise_text_queue_out_input_bytes, where all that was written fits the first buffer
  gives :
      (bytes : List ℕ)
      → len (l.given ++ bytes) ≤ Out.grow_by
      → LineStep l (record l { queue = input_bytes l.queue bytes; given = l.given ++ bytes })
  sends : LineStep l (record l {
    queue = (write_poll_conn l.queue).1;
    sent = l.sent ++ (write_poll_conn l.queue).0;
  })

pub data LineReached (garbage : ℕ → ℕ) : Line → Type 0 where
  connected : LineReached garbage (record { queue = Out.alloc garbage; given = []; sent = [] })
  later : {l m : Line} → LineReached garbage l → LineStep l m → LineReached garbage m
