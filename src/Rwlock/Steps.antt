-- ===== src/Rwlock/Steps.antt =====
-- Every step keeps the lock in balance with the threads.
use ip_noise.Common.{
  ℕ, ◌+◌, ◌<◌, ◌≡◌, refl, ap, ◌∙◌, ◌⊎◌, inl, inr, List, map, arith, if◌then◌else◌, Bool-cases,
}
use ip_noise.Common.Int.{ℤ}
use ip_noise.Rwlock.{
  Rwlock, rwlock_alloc, allow_reader, allow_writer, begin_read, begin_write, try_read, try_write,
  release_read, release_write, Thread, wake_writer, Signals, Move, System, Step, Reached,
}
use ip_noise.Rwlock.Invariant.{
  Balanced, down, same_count, allows_reader, refuses_reader, allows_writer, refuses_writer,
  begin_read-Balanced, begin_write-Balanced, read-Balanced, read_asleep-Balanced, write-Balanced,
  write_asleep-Balanced,
}
use ip_noise.Rwlock.Tally.{
  Tally, plus, tally, plus_comm, tally-set, tally-broadcast, Signals-tally, entries, tally-all_idle,
}

-- What both notifications do to the threads that are counted in `t`.
record Notified (t u : Tally) : Type 0 where
  readers : u.readers ≡ t.readers
  writers : u.writers ≡ t.writers
  waiting_r : u.r_asleep + u.r_awake ≡ t.r_asleep + t.r_awake
  no_writer_asleep : u.w_asleep ≡ 0
  waiting_w : u.w_awake ≡ t.w_awake + t.w_asleep
  reader_up : (u.r_asleep ≡ 0) ⊎ (0 < u.r_awake)

Signals-Notified :
    (l : List Thread) {m : List Thread}
    → Signals (map wake_writer l) m
    → Notified (tally l) (tally m)
Signals-Notified l s =
    let b = entries (tally-broadcast l) in
    elim (Signals-tally s) [
      | inl (z, q) ↦
          let c = entries q in
          record {
            readers = c.0 ∙ b.0;
            writers = c.1 ∙ b.1;
            waiting_r = omega (arith, c.2, c.3, b.2, b.3);
            no_writer_asleep = c.4 ∙ b.4;
            waiting_w = c.5 ∙ b.5;
            reader_up = inl (c.2 ∙ z);
          }
      | inr q ↦
          let c = entries q in
          record {
            readers = c.0 ∙ b.0;
            writers = c.1 ∙ b.1;
            waiting_r = omega (arith, c.2, c.3, b.2, b.3);
            no_writer_asleep = c.4 ∙ b.4;
            waiting_w = c.5 ∙ b.5;
            reader_up = inr (omega (arith, c.3));
          }
    ]

release_read-Balanced :
    (lock : Rwlock) (t u w : Tally)
    → Balanced lock t
    → plus Thread.reading u ≡ t
    → Notified u w
    → Balanced (release_read lock) w
unfolding release_read
release_read-Balanced lock t u w v h n =
    let c = entries h in
    record {
      is_readers = down t.readers w.readers v.is_readers (omega (arith, c.0, n.readers));
      is_writers = same_count t.writers w.writers v.is_writers (omega (arith, c.1, n.writers));
      is_waiting_r =
          same_count (t.r_asleep + t.r_awake) _ v.is_waiting_r
            (omega (arith, c.2, c.3, n.waiting_r));
      is_waiting_w =
          same_count (t.w_asleep + t.w_awake) _ v.is_waiting_w
            (omega (arith, c.4, c.5, n.waiting_w, n.no_writer_asleep));
      one_writer = omega (arith, v.one_writer, c.1, n.writers);
      apart = λ p. absurd (omega (arith, v.apart (omega (arith, c.1, n.writers)), c.0));
      writers_up = λ p. n.no_writer_asleep;
      reader_up = λ p. n.reader_up;
    }

release_write-Balanced :
    (lock : Rwlock) (t u w : Tally)
    → Balanced lock t
    → plus Thread.writing u ≡ t
    → Notified u w
    → Balanced (release_write lock) w
unfolding release_write
release_write-Balanced lock t u w v h n =
    let c = entries h in
    record {
      is_readers = same_count t.readers w.readers v.is_readers (omega (arith, c.0, n.readers));
      is_writers = down t.writers w.writers v.is_writers (omega (arith, c.1, n.writers));
      is_waiting_r =
          same_count (t.r_asleep + t.r_awake) _ v.is_waiting_r
            (omega (arith, c.2, c.3, n.waiting_r));
      is_waiting_w =
          same_count (t.w_asleep + t.w_awake) _ v.is_waiting_w
            (omega (arith, c.4, c.5, n.waiting_w, n.no_writer_asleep));
      one_writer = omega (arith, v.one_writer, c.1, n.writers);
      apart = λ p. omega (arith, v.apart (omega (arith, c.1)), c.0, n.readers);
      writers_up = λ p. n.no_writer_asleep;
      reader_up = λ p. n.reader_up;
    }

-- A try from the phase of a thread that is awake.
try_read-Balanced :
    (lock : Rwlock) (t u : Tally)
    → Balanced lock t
    → plus Thread.read_awake u
      ≡ plus (if (try_read lock).0 then Thread.reading else Thread.read_asleep) t
    → Balanced (try_read lock).1 u
unfolding try_read
try_read-Balanced lock t u v = elim (Bool-cases (allow_reader lock)) [
  | inl a ↦ rw a (λ h. read-Balanced lock t u v h (allows_reader lock t v a))
  | inr a ↦ rw a (λ h. read_asleep-Balanced lock t u v h (refuses_reader lock t v a))
]

try_write-Balanced :
    (lock : Rwlock) (t u : Tally)
    → Balanced lock t
    → plus Thread.write_awake u
      ≡ plus (if (try_write lock).0 then Thread.writing else Thread.write_asleep) t
    → Balanced (try_write lock).1 u
unfolding try_write
try_write-Balanced lock t u v = elim (Bool-cases (allow_writer lock)) [
  | inl a ↦ rw a (λ h. write-Balanced lock t u v h (allows_writer lock t v a))
  | inr a ↦ rw a (λ h. write_asleep-Balanced lock t u v h (refuses_writer lock t v a))
]

Move-Balanced :
    {lock l : Rwlock} {p q : Thread} (t u : Tally)
    → Balanced lock t
    → plus p u ≡ plus q t
    → Move lock p l q
    → Balanced l u
Move-Balanced {lock} t u v h Move.down_read =
    try_read-Balanced (begin_read lock) (plus Thread.read_awake t) u (begin_read-Balanced lock t v)
      (ap (plus Thread.read_awake) h ∙ plus_comm Thread.read_awake _ t)
Move-Balanced {lock} t u v h Move.retry_read = try_read-Balanced lock t u v h
Move-Balanced {lock} t u v h Move.down_write =
    try_write-Balanced (begin_write lock) (plus Thread.write_awake t) u
      (begin_write-Balanced lock t v)
      (ap (plus Thread.write_awake) h ∙ plus_comm Thread.write_awake _ t)
Move-Balanced {lock} t u v h Move.retry_write = try_write-Balanced lock t u v h

spurious_read-Balanced :
    (lock : Rwlock) (t u : Tally)
    → Balanced lock t
    → plus Thread.read_asleep u ≡ plus Thread.read_awake t
    → Balanced lock u
spurious_read-Balanced lock t u v h =
    let c = entries h in
    record {
      is_readers = same_count t.readers u.readers v.is_readers c.0;
      is_writers = same_count t.writers u.writers v.is_writers c.1;
      is_waiting_r = same_count (t.r_asleep + t.r_awake) _ v.is_waiting_r (omega (arith, c.2, c.3));
      is_waiting_w = same_count (t.w_asleep + t.w_awake) _ v.is_waiting_w (omega (arith, c.4, c.5));
      one_writer = omega (arith, c.1, v.one_writer);
      apart = λ p. c.0 ∙ v.apart (omega (arith, c.1));
      writers_up = λ p. c.4 ∙ v.writers_up (omega (arith, c.0, c.1));
      reader_up = λ p. inr (omega (arith, c.3));
    }

spurious_write-Balanced :
    (lock : Rwlock) (t u : Tally)
    → Balanced lock t
    → plus Thread.write_asleep u ≡ plus Thread.write_awake t
    → Balanced lock u
spurious_write-Balanced lock t u v h =
    let c = entries h in
    record {
      is_readers = same_count t.readers u.readers v.is_readers c.0;
      is_writers = same_count t.writers u.writers v.is_writers c.1;
      is_waiting_r = same_count (t.r_asleep + t.r_awake) _ v.is_waiting_r (omega (arith, c.2, c.3));
      is_waiting_w = same_count (t.w_asleep + t.w_awake) _ v.is_waiting_w (omega (arith, c.4, c.5));
      one_writer = omega (arith, c.1, v.one_writer);
      apart = λ p. c.0 ∙ v.apart (omega (arith, c.1));
      writers_up = λ p. omega (arith, c.4, v.writers_up (omega (arith, p, c.0, c.1)));
      reader_up = λ p. absurd (omega (arith, c.5));
    }

Step-Balanced :
    {s t : System}
    → Balanced s.lock (tally s.threads)
    → Step s t
    → Balanced t.lock (tally t.threads)
Step-Balanced {s} v (Step.move i {q = q} e m) =
    Move-Balanced (tally s.threads) _ v (tally-set s.threads i q e) m
Step-Balanced {s} v (Step.up_read i e g) =
    release_read-Balanced s.lock (tally s.threads) _ _ v (tally-set s.threads i Thread.idle e)
      (Signals-Notified _ g)
Step-Balanced {s} v (Step.up_write i e g) =
    release_write-Balanced s.lock (tally s.threads) _ _ v (tally-set s.threads i Thread.idle e)
      (Signals-Notified _ g)
Step-Balanced {s} v (Step.spurious_read i e) =
    spurious_read-Balanced s.lock (tally s.threads) _ v (tally-set s.threads i Thread.read_awake e)
Step-Balanced {s} v (Step.spurious_write i e) =
    spurious_write-Balanced s.lock (tally s.threads) _ v
      (tally-set s.threads i Thread.write_awake e)

-- In every state that any number of threads with one lock can reach, the four counters are the
-- numbers of threads that read, write, wait to read and wait to write (so none is negative), there
-- is at most one writer and none with readers, no writer sleeps while the lock is free, and some
-- reader is awake if readers alone wait for a free lock.
pub Reached-Balanced :
    {garbage : ℤ} {n : ℕ} {s : System} → Reached garbage n s → Balanced s.lock (tally s.threads)
unfolding rwlock_alloc
Reached-Balanced {n = n} Reached.begin = rw (tally-all_idle n) (record {
  is_readers = refl;
  is_writers = refl;
  is_waiting_r = refl;
  is_waiting_w = refl;
  one_writer = omega arith;
  apart = λ p. refl;
  writers_up = λ p. refl;
  reader_up = λ p. inl refl;
})
Reached-Balanced (Reached.later r m) = Step-Balanced (Reached-Balanced r) m
