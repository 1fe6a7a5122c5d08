-- ===== src/Rwlock/Progress.antt =====
-- A writer has the lock alone, and a lock that is free has no thread that only sleeps.
use native.Mathlib.Decide.{ℕ_discrete}
use ip_noise.Common.{
  ℕ, ◌+◌, ◌<◌, ◌≡◌, sym, ap, ◌∙◌, ◌≢◌, ◌⊎◌, inl, inr, true, some, List, arith, get_elem?, set,
  get_elem?-set_ne,
}
use ip_noise.Common.Int.{ℤ, pos}
use ip_noise.Rwlock.{
  Rwlock, allow_reader, allow_writer, try_read, try_write, Thread, System, Reached,
}
use ip_noise.Rwlock.Invariant.{Balanced}
use ip_noise.Rwlock.Steps.{Reached-Balanced}
use ip_noise.Rwlock.Tally.{Tally, plus, tally, tally-set, entries, find_writer, find_reader}

-- The tally without a thread that is there.
removed :
    (l : List Thread) (i : ℕ) {p : Thread}
    → get_elem? l i ≡ some p
    → tally l ≡ plus p (tally (set l i Thread.idle))
removed l i h = sym (tally-set l i Thread.idle h)

two_writers :
    (l : List Thread) (i j : ℕ)
    → i ≢ j
    → get_elem? l i ≡ some Thread.writing
    → get_elem? l j ≡ some Thread.writing
    → 1 < (tally l).writers
two_writers l i j n h k =
    let a = entries (removed l i h) in
    let b = entries (removed (set l i Thread.idle) j (get_elem?-set_ne l Thread.idle n ∙ k)) in
    omega (arith, a.1, b.1)

writer_and_reader :
    (l : List Thread) (i j : ℕ)
    → i ≢ j
    → get_elem? l i ≡ some Thread.writing
    → get_elem? l j ≡ some Thread.reading
    → (0 < (tally l).writers) × (0 < (tally l).readers)
writer_and_reader l i j n h k =
    let a = entries (removed l i h) in
    let b = entries (removed (set l i Thread.idle) j (get_elem?-set_ne l Thread.idle n ∙ k)) in
    (omega (arith, a.1), omega (arith, a.0, b.0))

-- In every state that any number of threads with one lock can reach, while a thread has the lock
-- for writing no other thread has it for reading or writing.
pub Reached-writer_alone :
    {garbage : ℤ} {n : ℕ} {s : System} (i j : ℕ) {q : Thread}
    → Reached garbage n s
    → get_elem? s.threads i ≡ some Thread.writing
    → i ≢ j
    → get_elem? s.threads j ≡ some q
    → (q ≢ Thread.reading) × (q ≢ Thread.writing)
Reached-writer_alone {s = s} i j r h n k =
    let v = Reached-Balanced r in
    (
      λ e.
          let (a, b) = writer_and_reader s.threads i j n h (k ∙ ap some e) in
          absurd (omega (arith, a, b, v.apart a)),
      λ e. absurd (omega (arith, two_writers s.threads i j n h (k ∙ ap some e), v.one_writer)),
    )

-- A thread that is in a call for the lock.
unfoldable pub IsWaiting : Thread → Type 0
IsWaiting p =
    (p ≡ Thread.read_asleep)
    ⊎ (p ≡ Thread.read_awake)
    ⊎ (p ≡ Thread.write_asleep)
    ⊎ (p ≡ Thread.write_awake)

-- Thread `j` is awake, and gets the lock when it tries.
unfoldable pub Proceeds : System → ℕ → Type 0
Proceeds s j =
    ((get_elem? s.threads j ≡ some Thread.read_awake) × ((try_read s.lock).0 ≡ true))
    ⊎ ((get_elem? s.threads j ≡ some Thread.write_awake) × ((try_write s.lock).0 ≡ true))

waiting_counts :
    (l : List Thread) (i : ℕ) {p : Thread}
    → get_elem? l i ≡ some p
    → IsWaiting p
    → 0 < (tally l).r_asleep + (tally l).r_awake + (tally l).w_asleep + (tally l).w_awake
unfolding IsWaiting
waiting_counts l i h (inl e) = let c = entries (removed l i (h ∙ ap some e)) in omega (arith, c.2)
waiting_counts l i h (inr (inl e)) =
    let c = entries (removed l i (h ∙ ap some e)) in omega (arith, c.3)
waiting_counts l i h (inr (inr (inl e))) =
    let c = entries (removed l i (h ∙ ap some e)) in omega (arith, c.4)
waiting_counts l i h (inr (inr (inr e))) =
    let c = entries (removed l i (h ∙ ap some e)) in omega (arith, c.5)

writer_tries :
    (lock : Rwlock) (t : Tally)
    → Balanced lock t
    → t.readers + t.writers ≡ 0
    → (try_write lock).0 ≡ true
unfolding try_write allow_writer
writer_tries lock t v z = ground (arith, v.is_readers, v.is_writers)

reader_tries :
    (lock : Rwlock) (t : Tally)
    → Balanced lock t
    → t.readers + t.writers + t.w_asleep + t.w_awake ≡ 0
    → (try_read lock).0 ≡ true
unfolding try_read allow_reader
reader_tries lock t v z = ground (arith, v.is_waiting_w, v.is_writers)

free_counts :
    (lock : Rwlock) (t : Tally)
    → Balanced lock t
    → lock.active_readers ≡ pos 0
    → lock.active_writers ≡ pos 0
    → t.readers + t.writers ≡ 0
free_counts lock t v a b = ground (arith, v.is_readers, v.is_writers)

-- In every state that any number of threads with one lock can reach, spurious wake-ups included,
-- if no reader and no writer is active and some thread is in a call for the lock, then some thread
-- is awake and gets the lock when it tries: no wake-up is lost, though only one reader is
-- signalled.
pub Reached-Proceeds :
    {garbage : ℤ} {n : ℕ} {s : System} (i : ℕ) {p : Thread}
    → Reached garbage n s
    → s.lock.active_readers ≡ pos 0
    → s.lock.active_writers ≡ pos 0
    → get_elem? s.threads i ≡ some p
    → IsWaiting p
    → (j : ℕ) × Proceeds s j
unfolding Proceeds
Reached-Proceeds {s = s} i r a b h w =
    let v = Reached-Balanced r in
    let t = tally s.threads in
    let z = free_counts s.lock t v a b in
    let some_one = waiting_counts s.threads i h w in
    let up = v.writers_up z in
    elim (ℕ_discrete t.w_awake 0) [
      | no nz ↦
          let (j, e) = find_writer s.threads (ground arith) in
          (j, inr (e, writer_tries s.lock t v z))
      | yes e ↦
          let none_left : t.readers + t.writers + t.w_asleep + t.w_awake ≡ 0 =
            omega (arith, z, up, e) in
          elim (v.reader_up none_left) [
            | inl q ↦
                let (j, k) = find_reader s.threads (omega (arith, some_one, up, e, q)) in
                (j, inl (k, reader_tries s.lock t v none_left))
            | inr q ↦
                let (j, k) = find_reader s.threads q in
                (j, inl (k, reader_tries s.lock t v none_left))
          ]
    ]
