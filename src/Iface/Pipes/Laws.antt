-- ===== src/Iface/Pipes/Laws.antt =====
-- The bytes go through the pipes and the queues in order.
use ip_noise.TextQueue.Out
use ip_noise.Common.{length as len}
use ip_noise.TextQueue.In.Laws as InLaws
use ip_noise.TextQueue.Out.Laws as OutLaws
use Prim.Native.Nat.{min}
use mathlib.Core.List.{append-nil, append_assoc}
use mathlib.Core.Path.{subst}
use native.Mathlib.Nat.{le_refl}
use ip_noise.Common.{
  ℕ, zero, suc, ◌+◌, ◌≤◌, ◌<◌, ◌≡◌, refl, sym, ap, ◌∙◌, ◌⊎◌, inl, inr, true, false, List, [], ◌∷◌,
  ◌++◌, arith, ltb, ◌==◌, Bool-cases, length-append,
}
use ip_noise.Iface.Pipes.{poll_conn_loop, write_poll_conn, Line, LineStep, LineReached}
use ip_noise.Iface.Read.Moves.{size}
use ip_noise.Iface.Transact.ReadOnly.{text}
use ip_noise.TextQueue.In.{TextQueueIn, put_bytes, set_conn_closed}
use ip_noise.TextQueue.In.Laws.{put_bytes-Holds}
use ip_noise.TextQueue.Memory.{read_at}
use ip_noise.TextQueue.Out.{TextQueueOut, grow_by, write_bytes, compact, grow, input_bytes}
use ip_noise.TextQueue.Out.Laws.{write_bytes-pending, input_bytes-append}

closed-Holds :
    (q : TextQueueIn) {a b : List ℕ} → InLaws.Holds q a b → InLaws.Holds (set_conn_closed q) a b
unfolding set_conn_closed InLaws.taken InLaws.unread
closed-Holds q h = record {
  valid = record { position = h.valid.position; inside = h.valid.inside };
  taken_is = h.taken_is;
  unread_is = h.unread_is;
}

-- The thread poll_conn leaves a queue that holds the lists `a` (taken) and `b` (unread) with all bytes
-- of the pipe, in order, behind `b`, and marks the connection as closed after the last one.
pub poll_conn_loop-Holds :
    (bytes : List ℕ) (q : TextQueueIn) {a b : List ℕ}
    → InLaws.Holds q a b
    → InLaws.Holds (poll_conn_loop bytes q) a (b ++ bytes)
      × ((poll_conn_loop bytes q).is_conn_closed ≡ true)
unfolding poll_conn_loop
poll_conn_loop-Holds [] q {a} {b} h =
    (rw append-nil (closed-Holds q h), unfold set_conn_closed in refl)
poll_conn_loop-Holds (byte ∷ bytes) q {a} {b} h =
    let (k, e) =
      poll_conn_loop-Holds bytes (put_bytes q (byte ∷ [])) (put_bytes-Holds q h (byte ∷ [])) in
    (
      subst (InLaws.Holds (poll_conn_loop bytes (put_bytes q (byte ∷ []))) a)
          (append_assoc b (byte ∷ []) bytes) k,
      e,
    )

nothing : (l : List ℕ) → len l ≡ 0 → l ≡ []
nothing [] e = refl
nothing (b ∷ l) e = absurd (omega arith)

one_or_none : (n : ℕ) → (min 1 n ≡ 1) × (0 < n) ⊎ (min 1 n ≡ 0) × (n ≡ 0)
one_or_none n = ground arith

write_poll_conn-eq : (q : TextQueueOut) → OutLaws.IsValid q → write_poll_conn q ≡ write_bytes q 1
unfolding write_poll_conn
write_poll_conn-eq q v =
    let w = write_bytes q 1 in
    let (_, l, _) = write_bytes-pending q v 1 in
    elim (Bool-cases (len w.0 == 1)) [
      | inl e ↦ rw e refl
      | inr e ↦
          let none_out : w.0 ≡ [] =
            nothing w.0 (ground (arith, one_or_none (len (OutLaws.pending q)))) in
          rw e (ap (λ (l : List ℕ). (l, w.1)) (sym none_out))
    ]

-- A round keeps the text where it is.
write_bytes-size :
    (q : TextQueueOut) (n : ℕ)
    → ((write_bytes q n).1.length ≡ q.length) × ((write_bytes q n).1.max_size ≡ q.max_size)
unfolding write_bytes
write_bytes-size q n = (refl, refl)

-- Bytes that fit the buffer are put behind the text.
input_bytes-size :
    (q : TextQueueOut) (bytes : List ℕ)
    → q.length + len bytes ≤ q.max_size
    → ((input_bytes q bytes).length ≡ q.length + len bytes)
      × ((input_bytes q bytes).max_size ≡ q.max_size)
unfolding input_bytes compact grow
input_bytes-size q bytes h =
    let fits : ltb q.max_size (q.length + len bytes) ≡ false = ground arith in
    rw (fits, fits) (refl, refl)

-- What was written is what went out and what waits, and it stands in the first buffer.
record IsInOrder (l : Line) : Type 0 where
  valid : OutLaws.IsValid l.queue
  same : l.given ≡ l.sent ++ OutLaws.pending l.queue
  size : l.queue.length ≡ len l.given
  buffer : l.queue.max_size ≡ Out.grow_by

gives-IsInOrder :
    (l : Line) (bytes : List ℕ)
    → IsInOrder l
    → len (l.given ++ bytes) ≤ Out.grow_by
    → IsInOrder (record l { queue = input_bytes l.queue bytes; given = l.given ++ bytes })
gives-IsInOrder l bytes i h =
    let total : len (l.given ++ bytes) ≡ len l.given + len bytes = length-append l.given bytes in
    let fits : l.queue.length + len bytes ≤ l.queue.max_size =
      omega (arith, h, total, i.size, i.buffer) in
    let (size, room) = input_bytes-size l.queue bytes fits in
    let (text, valid) = input_bytes-append l.queue i.valid bytes fits in
    record {
      valid = valid;
      same = rw (text, i.same) (append_assoc l.sent (OutLaws.pending l.queue) bytes);
      size = omega (arith, size, total, i.size);
      buffer = room ∙ i.buffer;
    }

unfoldable pub sent_one : Line → Line
sent_one l = record l {
  queue = (write_poll_conn l.queue).1;
  sent = l.sent ++ (write_poll_conn l.queue).0;
}

sends-IsInOrder : (l : Line) → IsInOrder l → IsInOrder (sent_one l)
unfolding sent_one
sends-IsInOrder l i =
    let (text, _, valid) = write_bytes-pending l.queue i.valid 1 in
    let (size, room) = write_bytes-size l.queue 1 in
    rw (write_poll_conn-eq l.queue i.valid) (record {
      valid = valid;
      same = i.same ∙ ap (λ t. l.sent ++ t) text ∙ sym (append_assoc l.sent _ _);
      size = size ∙ i.size;
      buffer = room ∙ i.buffer;
    })

LineStep-IsInOrder : {l m : Line} → IsInOrder l → LineStep l m → IsInOrder m
unfolding sent_one
LineStep-IsInOrder {l} i (LineStep.gives bytes h) = gives-IsInOrder l bytes i h
LineStep-IsInOrder {l} i (LineStep.sends) = sends-IsInOrder l i

LineReached-IsInOrder : {garbage : ℕ → ℕ} {l : Line} → LineReached garbage l → IsInOrder l
unfolding Out.alloc OutLaws.pending read_at
LineReached-IsInOrder LineReached.connected = record {
  valid = record { position = omega arith; inside = omega arith };
  same = refl;
  size = refl;
  buffer = refl;
}
LineReached-IsInOrder (LineReached.later r s) = LineStep-IsInOrder (LineReached-IsInOrder r) s

-- `n` rounds of write_poll_conn, and nothing else.
unfoldable pub send_rounds : ℕ → Line → Line
unfolding sent_one
send_rounds zero l = l
send_rounds (suc n) l = send_rounds n (sent_one l)

-- Rounds of write_poll_conn alone send what waits.
drains :
    {garbage : ℕ → ℕ} (n : ℕ) (l : Line)
    → LineReached garbage l
    → len (OutLaws.pending l.queue) ≤ n
    → (send_rounds n l).sent ≡ l.given
unfolding send_rounds sent_one
drains zero l r h =
    let i = LineReached-IsInOrder r in
    let e : OutLaws.pending l.queue ≡ [] = nothing (OutLaws.pending l.queue) (omega arith) in
    sym (rw (e, append-nil) at i.same)
drains (suc n) l r h =
    let i = LineReached-IsInOrder r in
    let (text, taken, _) = write_bytes-pending l.queue i.valid 1 in
    let w = write_bytes l.queue 1 in
    let parts : len (OutLaws.pending l.queue) ≡ len w.0 + len (OutLaws.pending w.1) =
      ap len text ∙ length-append w.0 (OutLaws.pending w.1) in
    let fewer : len (OutLaws.pending w.1) ≤ n =
      ground (arith, one_or_none (len (OutLaws.pending l.queue))) in
    drains n (sent_one l) (LineReached.later r LineStep.sends)
      (rw (write_poll_conn-eq l.queue i.valid) fewer)

-- As long as no more than 2048 bytes were written to a connection, the size of its first buffer,
-- in every state that the transactions and the thread write_poll_conn reach by turns, what went
-- into the pipe and what waits are together what was written, in order; and from there as many
-- rounds of that thread alone as there are bytes that wait send all that was written.
pub LineReached-sends :
    {garbage : ℕ → ℕ} (l : Line)
    → LineReached garbage l
    → (l.given ≡ l.sent ++ OutLaws.pending l.queue)
      × ((send_rounds (len (OutLaws.pending l.queue)) l).sent ≡ l.given)
LineReached-sends l r =
    ((LineReached-IsInOrder r).same, drains (len (OutLaws.pending l.queue)) l r (le_refl _))
