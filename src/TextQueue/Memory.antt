-- ===== src/TextQueue/Memory.antt =====
-- A buffer and the C functions memcpy and memmove on it. Bytes that were never written are arbitrary,
-- and realloc keeps what was there, so a buffer is a function of the index; the queues keep its size.
use Prim.Native.Nat.add
use mathlib.Core.Path.{ap₂}
use native.Mathlib.Nat.{add-suc, add-zero}
use ip_noise.Common.{
  ℕ, zero, suc, ◌+◌, ◌-◌, ◌≤◌, ◌<◌, ◌≡◌, refl, ap, ◌∙◌, ◌&&◌, List, [], ◌∷◌, ◌++◌, arith, ltb, leb,
  if◌then◌else◌, lt→ltb, le→leb, lt→leb, length, get_or,
}

-- The `n` bytes from `from` on.
unfoldable pub read_at : (ℕ → ℕ) → ℕ → ℕ → List ℕ
read_at mem from zero = []
read_at mem from (suc n) = mem from ∷ read_at mem (suc from) n

-- memcpy(mem + to, bytes, length)
unfoldable pub write_at : (ℕ → ℕ) → ℕ → List ℕ → ℕ → ℕ
write_at mem to bytes j =
    if leb to j && ltb j (to + length bytes) then get_or bytes (j - to) 0 else mem j

-- memmove(mem + to, mem + from, n)
unfoldable pub move : (ℕ → ℕ) → ℕ → ℕ → ℕ → ℕ → ℕ
move mem to from n j = if leb to j && ltb j (to + n) then mem (from + (j - to)) else mem j

pub length-read_at : (mem : ℕ → ℕ) (from n : ℕ) → length (read_at mem from n) ≡ n
unfolding read_at
length-read_at mem from zero = refl
length-read_at mem from (suc n) = ap suc (length-read_at mem (suc from) n)

pub read_at-append :
    (mem : ℕ → ℕ) (from m n : ℕ)
    → read_at mem from (m + n) ≡ read_at mem from m ++ read_at mem (from + m) n
unfolding read_at
read_at-append mem from zero n = rw (add.zero n, add-zero from)
read_at-append mem from (suc m) n =
    rw (add.suc m n, add-suc from m)
      (ap (◌∷◌ (mem from)) (read_at-append mem (suc from) m n ∙ rw (add.suc from m)))

-- Two buffers that agree on a range read alike there, also where the ranges are shifted.
pub read_at-agree :
    (a b : ℕ → ℕ) (i j n : ℕ)
    → ((k : ℕ) → k < n → a (i + k) ≡ b (j + k))
    → read_at a i n ≡ read_at b j n
unfolding read_at
read_at-agree a b i j zero h = refl
read_at-agree a b i j (suc n) h = ap₂ ◌∷◌ (rw (add-zero i, add-zero j) at (h 0 (omega arith))) (
    read_at-agree a b (suc i) (suc j) n λ k l.
      rw (add-suc i k, add-suc j k, ← add.suc i k, ← add.suc j k) at (h (suc k) (omega arith)))

-- A buffer that holds a list from `from` on reads as the list.
pub read_at-get_or :
    (mem : ℕ → ℕ) (from : ℕ) (bytes : List ℕ)
    → ((k : ℕ) → k < length bytes → mem (from + k) ≡ get_or bytes k 0)
    → read_at mem from (length bytes) ≡ bytes
unfolding read_at
read_at-get_or mem from [] h = refl
read_at-get_or mem from (b ∷ bytes) h = ap₂ ◌∷◌ (rw (add-zero from) at (h 0 (omega arith))) (
    read_at-get_or mem (suc from) bytes
      λ k l. rw (add-suc from k, ← add.suc from k) at (h (suc k) (omega arith)))

-- What was written is read.
pub read_at-write_at :
    (mem : ℕ → ℕ) (to : ℕ) (bytes : List ℕ)
    → read_at (write_at mem to bytes) to (length bytes) ≡ bytes
unfolding write_at
read_at-write_at mem to bytes = read_at-get_or (write_at mem to bytes) to bytes λ k l.
    let e : to + k - to ≡ k = omega arith in
    rw (le→leb to (to + k) (omega arith), lt→ltb (to + k) (to + length bytes) (omega arith), e)

-- A write from `to` on leaves what stands before.
pub read_at-write_at_before :
    (mem : ℕ → ℕ) (to : ℕ) (bytes : List ℕ) (from n : ℕ)
    → from + n ≤ to
    → read_at (write_at mem to bytes) from n ≡ read_at mem from n
unfolding write_at
read_at-write_at_before mem to bytes from n h =
    read_at-agree (write_at mem to bytes) mem from from n
      λ k l. rw (lt→leb to (from + k) (omega arith))

-- What was moved is read at its new place.
pub read_at-move :
    (mem : ℕ → ℕ) (to from n : ℕ) → read_at (move mem to from n) to n ≡ read_at mem from n
unfolding move
read_at-move mem to from n = read_at-agree (move mem to from n) mem to from n λ k l.
    let e : to + k - to ≡ k = omega arith in
    rw (le→leb to (to + k) (omega arith), lt→ltb (to + k) (to + n) (omega arith), e)

-- A write behind the text leaves the text, and the bytes written are read behind it.
pub read-written :
    (mem : ℕ → ℕ) (from to : ℕ) (bytes : List ℕ)
    → from ≤ to
    → read_at (write_at mem to bytes) from (to + length bytes - from)
      ≡ read_at mem from (to - from) ++ bytes
read-written mem from to bytes h =
    let e : to + length bytes - from ≡ (to - from) + length bytes = omega arith in
    let e' : from + (to - from) ≡ to = omega arith in
    rw (e, read_at-append (write_at mem to bytes) from (to - from) (length bytes), e')
      (ap₂ ◌++◌ (read_at-write_at_before mem to bytes from (to - from) (omega arith))
        (read_at-write_at mem to bytes))
