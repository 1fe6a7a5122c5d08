-- ===== src/TextQueue/In/Laws.antt =====
-- The input queue as two lists: the bytes that the current transaction has read, and the rest.
use ip_noise.Common.{length as len}
use Prim.Native.Nat.add
use mathlib.Core.Path.{ap₂}
use ip_noise.Common.{
  ℕ, ◌+◌, ◌-◌, ◌≤◌, ◌<◌, ◌≡◌, refl, sym, ap, ◌∙◌, ◌⊎◌, inl, inr, List, [], ◌++◌, arith, ltb,
  if◌then◌else◌, ltb→lt, Bool-cases,
}
use ip_noise.TextQueue.In.{
  alloc, grow, ReadError, conn_term, not_fully, TextQueueIn, put_bytes, read_bytes, commit,
  rollback,
}
use ip_noise.TextQueue.Memory.{
  read_at, length-read_at, read_at-append, read_at-write_at_before, read_at-move, read-written,
}

-- The bytes read since the last commit or rollback, and those not yet read.
unfoldable pub taken : TextQueueIn → List ℕ
taken q = read_at q.buffer 0 q.ptr_offset

unfoldable pub unread : TextQueueIn → List ℕ
unread q = read_at q.buffer q.ptr_offset (q.length - q.ptr_offset)

-- The read position is in the text, and the text in the buffer.
pub record IsValid (q : TextQueueIn) : Type 0 where
  pub position : q.ptr_offset ≤ q.length
  pub inside : q.length ≤ q.max_size

-- The text of `q` is `a`, and `b` after the read position.
pub record Holds (q : TextQueueIn) (a b : List ℕ) : Type 0 where
  pub valid : IsValid q
  pub taken_is : taken q ≡ a
  pub unread_is : unread q ≡ b

-- A new queue is empty.
pub alloc-Holds : (garbage : ℕ → ℕ) → Holds (alloc garbage) [] []
unfolding alloc taken unread read_at
alloc-Holds garbage = record { valid = omega arith; taken_is = refl; unread_is = refl }

-- Growing keeps all but the size of the buffer, which gets large enough.
grow-fits :
    (q : TextQueueIn) (n : ℕ)
    → ((grow q n).buffer ≡ q.buffer)
      × ((grow q n).length ≡ q.length)
      × ((grow q n).ptr_offset ≡ q.ptr_offset)
      × (q.length + n ≤ (grow q n).max_size)
unfolding grow
grow-fits q n = elim (Bool-cases (ltb q.max_size (q.length + n))) [
  | inl e ↦ rw e (refl, refl, refl, omega arith)
  | inr e ↦ rw e (refl, refl, refl, ground arith)
]

module _ (q : TextQueueIn) {a b : List ℕ} (h : Holds q a b) where
  -- In a queue that holds the lists `a` and `b`, bytes that come in are appended to the unread
  -- text, what was taken stays, and the text still fits the buffer.
  pub put_bytes-Holds : (bytes : List ℕ) → Holds (put_bytes q bytes) a (b ++ bytes)
  unfolding put_bytes taken unread
  put_bytes-Holds bytes =
      let (eb, el, ep, fits) = grow-fits q (len bytes) in
      record {
        valid = record {
          position = rw (el, ep) (omega (arith, h.valid.position));
          inside = rw el fits;
        };
        taken_is =
            rw (eb, el, ep)
              (read_at-write_at_before q.buffer q.length bytes 0 q.ptr_offset
                  (omega (arith, h.valid.position))
                ∙ h.taken_is);
        unread_is =
            rw (eb, el, ep)
              (read-written q.buffer q.ptr_offset q.length bytes h.valid.position
                ∙ ap (λ l. l ++ bytes) h.unread_is);
      }

  whole : read_at q.buffer 0 q.length ≡ a ++ b
  unfolding taken unread
  whole =
      let e : q.length ≡ q.ptr_offset + (q.length - q.ptr_offset) =
        omega (arith, h.valid.position) in
      rw e (
        read_at-append q.buffer 0 q.ptr_offset (q.length - q.ptr_offset)
        ∙ ap₂ ◌++◌ h.taken_is (rw (add.zero q.ptr_offset) h.unread_is))

  -- A queue that holds the lists `a` and `b` is left by a rollback with nothing taken, and `a`
  -- followed by `b` unread.
  pub rollback-Holds : Holds (rollback q) [] (a ++ b)
  unfolding rollback taken unread read_at
  rollback-Holds = record {
    valid = record { position = omega arith; inside = h.valid.inside };
    taken_is = refl;
    unread_is = let z : q.length - 0 ≡ q.length = omega arith in rw z whole;
  }

  -- A queue that holds the lists `a` and `b` is left by a commit with nothing taken, and `b`
  -- unread.
  pub commit-Holds : Holds (commit q) [] b
  unfolding commit taken unread read_at
  commit-Holds = record {
    valid = record { position = omega arith; inside = omega (arith, h.valid.inside) };
    taken_is = refl;
    unread_is =
        let z : q.length - q.ptr_offset - 0 ≡ q.length - q.ptr_offset = omega arith in
        rw z (read_at-move q.buffer 0 q.ptr_offset (q.length - q.ptr_offset) ∙ h.unread_is);
  }

  -- How a read of `n` bytes ends: with the next `n` bytes, or, if there are fewer, with the error
  -- for a connection that is open, or closed.
  pub data Reads (n : ℕ) : ReadError ⊎ (List ℕ × TextQueueIn) → Type 0 where
    bytes_read :
        {q' : TextQueueIn} {bytes rest : List ℕ}
        → b ≡ bytes ++ rest
        → len bytes ≡ n
        → Holds q' (a ++ bytes) rest
        → Reads n (inr (bytes, q'))
    too_few : len b < n → Reads n (inl (if q.is_conn_closed then conn_term else not_fully))

  -- A read of `n` bytes from a queue that holds the lists `a` (taken) and `b` (unread) returns the
  -- first `n` bytes of `b` and moves them to the end of `a`, or, when `b` is shorter than `n`,
  -- returns the error for a connection that is open, or closed.
  pub read_bytes-Reads : (n : ℕ) → Reads n (read_bytes q n)
  unfolding read_bytes taken unread
  read_bytes-Reads n = elim (Bool-cases (ltb q.length (q.ptr_offset + n))) [
    | inl e ↦ rw e (
        too_few (
          omega (
            arith,
            ap len h.unread_is,
            length-read_at q.buffer q.ptr_offset (q.length - q.ptr_offset),
            h.valid.position,
            ltb→lt _ _ e,
          )))
    | inr e ↦
        let l : q.ptr_offset + n ≤ q.length = ground arith in
        let split : q.length - q.ptr_offset ≡ n + (q.length - (q.ptr_offset + n)) =
          omega (arith, h.valid.position) in
        rw e (
          bytes_read
            (sym h.unread_is
              ∙ rw split (read_at-append q.buffer q.ptr_offset n (q.length - (q.ptr_offset + n))))
            (length-read_at q.buffer q.ptr_offset n)
            (record {
              valid = record { position = l; inside = h.valid.inside };
              taken_is =
                  read_at-append q.buffer 0 q.ptr_offset n
                  ∙ ap₂ ◌++◌ h.taken_is (rw (add.zero q.ptr_offset));
              unread_is = refl;
            }))
  ]
