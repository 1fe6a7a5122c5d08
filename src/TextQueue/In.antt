-- ===== src/TextQueue/In.antt =====
-- C/arbitrator/text_queue_in.c: what has come from the connection, with a read position that a
-- transaction moves, and commits or takes back.
pub mod Laws
use ip_noise.Common.{length as len}
use ip_noise.Common.{
  ℕ, ◌+◌, ◌-◌, ◌⊎◌, inl, inr, Bool, true, false, List, ltb, if◌then◌else◌, length,
}
use ip_noise.TextQueue.Memory.{read_at, write_at, move}

-- enum IP_NOISE_READ_ERROR_CODES of read.h, without IP_NOISE_READ_OK
pub data ReadError : Type 0 where
  conn_term not_fully : ReadError

-- ip_noise_text_queue_in_t
pub record TextQueueIn : Type 0 where
  pub buffer : ℕ → ℕ
  pub length : ℕ
  pub max_size : ℕ
  pub ptr_offset : ℕ
  pub is_conn_closed : Bool

-- IP_NOISE_TEXT_QUEUE_IN_GROW_BY
abbrev pub grow_by : ℕ
grow_by = 2048

-- ip_noise_text_queue_in_alloc, for the contents that malloc returns
unfoldable pub alloc : (ℕ → ℕ) → TextQueueIn
alloc garbage = record {
  buffer = garbage;
  length = 0;
  max_size = grow_by;
  ptr_offset = 0;
  is_conn_closed = false;
}

-- The growth of the buffer: realloc keeps the bytes.
unfoldable pub grow : TextQueueIn → ℕ → TextQueueIn
grow q n =
    if ltb q.max_size (q.length + n) then record q { max_size = q.length + n + grow_by } else q

-- ip_noise_text_queue_in_put_bytes
unfoldable pub put_bytes : TextQueueIn → List ℕ → TextQueueIn
unfolding grow write_at
put_bytes q bytes =
    let g = grow q (len bytes) in
    record g { buffer = write_at g.buffer g.length bytes; length = g.length + len bytes }

-- ip_noise_text_queue_in_read_bytes
unfoldable pub read_bytes : TextQueueIn → ℕ → ReadError ⊎ (List ℕ × TextQueueIn)
unfolding read_at
read_bytes q n =
    if ltb q.length (q.ptr_offset + n)
    then inl (if q.is_conn_closed then conn_term else not_fully)
    else inr (read_at q.buffer q.ptr_offset n, record q { ptr_offset = q.ptr_offset + n })

-- ip_noise_text_queue_in_set_conn_closed
unfoldable pub set_conn_closed : TextQueueIn → TextQueueIn
set_conn_closed q = record q { is_conn_closed = true }

-- ip_noise_text_queue_in_commit
unfoldable pub commit : TextQueueIn → TextQueueIn
unfolding move
commit q = record q {
  buffer = move q.buffer 0 q.ptr_offset (q.length - q.ptr_offset);
  length = q.length - q.ptr_offset;
  ptr_offset = 0;
}

-- ip_noise_text_queue_in_rollback
unfoldable pub rollback : TextQueueIn → TextQueueIn
rollback q = record q { ptr_offset = 0 }
