-- ===== src/Tests/Queues.antt =====
-- The text queues.
use ip_noise.TextQueue.In.Laws as InLaws
use ip_noise.TextQueue.Out.Laws as OutLaws
use ip_noise.Common.{ℕ, ◌≡◌, refl, false, List, [], ◌∷◌, arith}
use ip_noise.Tests.{buffer_of}
use ip_noise.TextQueue.In.{TextQueueIn, read_bytes}
use ip_noise.TextQueue.In.Laws.{
  taken, unread, Holds, put_bytes-Holds, rollback-Holds, commit-Holds, read_bytes-Reads,
}
use ip_noise.TextQueue.Memory.{read_at}
use ip_noise.TextQueue.Out.{TextQueueOut, input_bytes}
use ip_noise.TextQueue.Out.Laws.{
  pending, write_bytes-pending, input_bytes-append, input_bytes-resends,
}

-- Two of five bytes are read.
abbrev incoming : TextQueueIn
incoming = record {
  buffer = buffer_of (11 ∷ 12 ∷ 13 ∷ 14 ∷ 15 ∷ []);
  length = 5;
  max_size = 8;
  ptr_offset = 2;
  is_conn_closed = false;
}

incoming-Holds : Holds incoming (11 ∷ 12 ∷ []) (13 ∷ 14 ∷ 15 ∷ [])
unfolding taken unread read_at
incoming-Holds = record {
  valid = record { position = omega arith; inside = omega arith };
  taken_is = refl;
  unread_is = refl;
}

read_bytes-Reads_example : InLaws.Reads incoming incoming-Holds 2 (read_bytes incoming 2)
read_bytes-Reads_example = read_bytes-Reads incoming incoming-Holds 2

-- One of three bytes went out; the buffer is full.
abbrev outgoing : TextQueueOut
outgoing = record {
  buffer = buffer_of (21 ∷ 22 ∷ 23 ∷ []);
  length = 3;
  max_size = 4;
  ptr_offset = 1;
}

outgoing-IsValid : OutLaws.IsValid outgoing
outgoing-IsValid = record { position = omega arith; inside = omega arith }

input_bytes-resends_example :
    (rest : List ℕ) × (pending (input_bytes outgoing (24 ∷ 25 ∷ [])) ≡ 21 ∷ rest)
input_bytes-resends_example =
    input_bytes-resends outgoing outgoing-IsValid (24 ∷ 25 ∷ []) (omega arith) (omega arith)
      (omega arith)
