-- ===== src/TextQueue/Out.antt =====
-- C/arbitrator/text_queue_out.c: what is to be sent on the connection.
pub mod Laws
use ip_noise.Common.{length as len}
use ip_noise.Common.{ℕ, ◌+◌, ◌-◌, List, ltb, if◌then◌else◌, length}
use ip_noise.TextQueue.Memory.{read_at, write_at, move}

-- ip_noise_text_queue_out_t
pub record TextQueueOut : Type 0 where
  pub buffer : ℕ → ℕ
  pub length : ℕ
  pub max_size : ℕ
  pub ptr_offset : ℕ

-- IP_NOISE_TEXT_QUEUE_OUT_GROW_BY
abbrev pub grow_by : ℕ
grow_by = 2048

-- ip_noise_text_queue_out_alloc
unfoldable pub alloc : (ℕ → ℕ) → TextQueueOut
alloc garbage = record { buffer = garbage; length = 0; max_size = grow_by; ptr_offset = 0 }

-- ip_noise_text_queue_out_write_bytes: the bytes that go out, at most `n` of them.
unfoldable pub write_bytes : TextQueueOut → ℕ → List ℕ × TextQueueOut
unfolding read_at
write_bytes q n =
    let m = if ltb (q.length - q.ptr_offset) n then q.length - q.ptr_offset else n in
    (read_at q.buffer q.ptr_offset m, record q { ptr_offset = q.ptr_offset + m })

-- The first `if` of ip_noise_text_queue_out_input_bytes. The `memmove` has the addresses as the
-- source has them: it writes at `buffer + ptr_offset` what stands at `buffer`.
unfoldable pub compact : TextQueueOut → ℕ → TextQueueOut
unfolding move
compact q n =
    if ltb q.max_size (q.length + n)
    then record q {
      buffer = move q.buffer q.ptr_offset 0 (q.length - q.ptr_offset);
      length = q.length - q.ptr_offset;
      ptr_offset = 0;
    }
    else q

-- The second `if`.
unfoldable pub grow : TextQueueOut → ℕ → TextQueueOut
grow q n =
    if ltb q.max_size (q.length + n) then record q { max_size = q.length + n + grow_by } else q

-- ip_noise_text_queue_out_input_bytes
unfoldable pub input_bytes : TextQueueOut → List ℕ → TextQueueOut
unfolding compact grow write_at
input_bytes q src =
    let g = grow (compact q (len src)) (len src) in
    record g { buffer = write_at g.buffer g.length src; length = g.length + len src }
