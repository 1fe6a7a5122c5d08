-- ===== src/TextQueue/Out/Laws.antt =====
-- The output queue as the list of the bytes that are still to go out.
use ip_noise.Common.{length as len}
use Prim.Native.Nat.{min}
use ip_noise.Common.{
  ℕ, suc, ◌+◌, ◌-◌, ◌≤◌, ◌<◌, ◌≡◌, refl, ap, ◌∙◌, ◌⊎◌, inl, inr, List, ◌∷◌, ◌++◌, arith, ltb,
  ltb→lt, lt→ltb, Bool-cases, lt→leb, le→ltb,
}
use ip_noise.TextQueue.Memory.{read_at, move, length-read_at, read_at-append, read-written}
use ip_noise.TextQueue.Out.{TextQueueOut, write_bytes, compact, grow, input_bytes}

-- The bytes still to go out.
unfoldable pub pending : TextQueueOut → List ℕ
pending q = read_at q.buffer q.ptr_offset (q.length - q.ptr_offset)

pub record IsValid (q : TextQueueOut) : Type 0 where
  pub position : q.ptr_offset ≤ q.length
  pub inside : q.length ≤ q.max_size

-- Growing keeps all but the size of the buffer, which gets large enough.
grow-fits :
    (q : TextQueueOut) (n : ℕ)
    → ((grow q n).buffer ≡ q.buffer)
      × ((grow q n).length ≡ q.length)
      × ((grow q n).ptr_offset ≡ q.ptr_offset)
      × (q.length + n ≤ (grow q n).max_size)
unfolding grow
grow-fits q n = elim (Bool-cases (ltb q.max_size (q.length + n))) [
  | inl e ↦ rw e (refl, refl, refl, omega arith)
  | inr e ↦ rw e (refl, refl, refl, ground arith)
]

compact-fits : (q : TextQueueOut) (n : ℕ) → q.length + n ≤ q.max_size → compact q n ≡ q
unfolding compact
compact-fits q n h = rw (le→ltb q.max_size (q.length + n) h)

-- The new bytes stand behind what compacting left.
input_bytes-compact :
    (q : TextQueueOut) (src : List ℕ)
    → (compact q (len src)).ptr_offset ≤ (compact q (len src)).length
    → (pending (input_bytes q src) ≡ pending (compact q (len src)) ++ src)
      × IsValid (input_bytes q src)
unfolding input_bytes pending
input_bytes-compact q src h =
    let (eb, el, ep, fits) = grow-fits (compact q (len src)) (len src) in
    (
      rw (eb, el, ep) (read-written _ _ _ src h),
      record { position = rw (el, ep) (omega arith); inside = rw el fits },
    )

compact-position :
    (q : TextQueueOut) (n : ℕ)
    → q.ptr_offset ≤ q.length
    → (compact q n).ptr_offset ≤ (compact q n).length
unfolding compact
compact-position q n h = ground arith

-- The queue stays inside of its buffer, wherever the new bytes go.
pub input_bytes-IsValid :
    (q : TextQueueOut) (src : List ℕ) → IsValid q → IsValid (input_bytes q src)
input_bytes-IsValid q src v =
    (input_bytes-compact q src (compact-position q (len src) v.position)).1

module _ (q : TextQueueOut) (v : IsValid q) where
  -- On a valid output queue write_bytes hands out the next bytes in order, as many as are asked
  -- for and there, and leaves the queue valid.
  pub write_bytes-pending :
      (n : ℕ)
      → (pending q ≡ (write_bytes q n).0 ++ pending (write_bytes q n).1)
        × (len (write_bytes q n).0 ≡ min n (len (pending q)))
        × IsValid (write_bytes q n).1
  unfolding write_bytes pending
  write_bytes-pending n = elim (Bool-cases (ltb (q.length - q.ptr_offset) n)) [
    | inl e ↦ rw e (cut (q.length - q.ptr_offset) n (omega arith) (inl (refl, ltb→lt _ _ e)))
    | inr e ↦ rw e (cut n n (ground arith) (inr refl))
  ]
    where
      cut :
          (m k : ℕ)
          → m ≤ q.length - q.ptr_offset
          → ((m ≡ q.length - q.ptr_offset) × (q.length - q.ptr_offset < k)) ⊎ (m ≡ k)
          → (read_at q.buffer q.ptr_offset (q.length - q.ptr_offset)
              ≡ read_at q.buffer q.ptr_offset m
                ++ read_at q.buffer (q.ptr_offset + m) (q.length - (q.ptr_offset + m)))
            × (len (read_at q.buffer q.ptr_offset m)
                ≡ min k (len (read_at q.buffer q.ptr_offset (q.length - q.ptr_offset))))
            × IsValid (record q { ptr_offset = q.ptr_offset + m })
      cut m k h c =
          let e : q.length - q.ptr_offset ≡ m + (q.length - (q.ptr_offset + m)) =
            omega (arith, v.position) in
          (
            ap (read_at q.buffer q.ptr_offset) e
                ∙ read_at-append q.buffer q.ptr_offset m (q.length - (q.ptr_offset + m)),
            omega (
              arith,
              length-read_at q.buffer q.ptr_offset m,
              length-read_at q.buffer q.ptr_offset (q.length - q.ptr_offset),
            ),
            record { position = omega (arith, v.position); inside = v.inside },
          )

  -- On a valid output queue bytes that fit the buffer behind the text are appended to what is to
  -- go out, and the queue stays valid.
  pub input_bytes-append :
      (src : List ℕ)
      → q.length + len src ≤ q.max_size
      → (pending (input_bytes q src) ≡ pending q ++ src) × IsValid (input_bytes q src)
  input_bytes-append src h =
      rw (compact-fits q (len src) h) at
        (input_bytes-compact q src (rw (compact-fits q (len src) h) v.position))

  -- The text after compacting: the code moves the start of the buffer up, and then starts over there.
  compact-pending :
      (n : ℕ)
      → q.max_size < q.length + n
      → 0 < q.ptr_offset
      → q.ptr_offset < q.length
      → ((compact q n).ptr_offset ≡ 0)
        × (rest : List ℕ) × (pending (compact q n) ≡ q.buffer 0 ∷ rest)
  unfolding pending compact move read_at
  compact-pending n h p l =
      let e : q.length - q.ptr_offset - 0 ≡ suc (q.length - q.ptr_offset - 1) = omega arith in
      rw (lt→ltb q.max_size (q.length + n) h) (
        refl,
        read_at (move q.buffer q.ptr_offset 0 (q.length - q.ptr_offset)) 1
            (q.length - q.ptr_offset - 1),
        rw e (
            ap
              (λ b.
                b
                ∷ read_at (move q.buffer q.ptr_offset 0 (q.length - q.ptr_offset)) 1
                    (q.length - q.ptr_offset - 1))
              (rw (lt→leb q.ptr_offset 0 p))),
      )

  -- On a valid output queue, where the bytes do not fit behind the text, and some but not all of
  -- the text went out before, the next byte to go out is the first byte of the buffer, in place of
  -- the next one of the text.
  pub input_bytes-resends :
      (src : List ℕ)
      → q.max_size < q.length + len src
      → 0 < q.ptr_offset
      → q.ptr_offset < q.length
      → (rest : List ℕ) × (pending (input_bytes q src) ≡ q.buffer 0 ∷ rest)
  input_bytes-resends src h p l =
      let (e, rest, eq) = compact-pending (len src) h p l in
      let (text, _) = input_bytes-compact q src (rw e (omega arith)) in
      (rest ++ src, text ∙ ap (λ t. t ++ src) eq)
