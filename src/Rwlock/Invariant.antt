-- ===== src/Rwlock/Invariant.antt =====
-- The counters of the lock agree with the threads, writers are alone, and nobody sleeps while the lock is
-- free.
use ip_noise.Common.{ℕ, suc, ◌+◌, ◌≤◌, ◌<◌, ◌≡◌, sym, ap, ◌∙◌, ◌⊎◌, inr, true, false, arith}
use ip_noise.Common.Int.{ℤ, pos, ◌+ℤ◌, ◌-ℤ◌}
use ip_noise.Rwlock.{
  Rwlock, allow_reader, allow_writer, begin_read, end_read, begin_write, end_write, Thread,
}
use ip_noise.Rwlock.Tally.{Tally, plus, entries}

-- The lock for the threads of a tally.
pub record Balanced (lock : Rwlock) (t : Tally) : Type 0 where
  pub is_readers : lock.active_readers ≡ pos t.readers
  pub is_writers : lock.active_writers ≡ pos t.writers
  pub is_waiting_r : lock.waiting_readers ≡ pos (t.r_asleep + t.r_awake)
  pub is_waiting_w : lock.waiting_writers ≡ pos (t.w_asleep + t.w_awake)
  pub one_writer : t.writers ≤ 1
  pub apart : 0 < t.writers → t.readers ≡ 0
  pub writers_up : t.readers + t.writers ≡ 0 → t.w_asleep ≡ 0
  pub reader_up :
      t.readers + t.writers + t.w_asleep + t.w_awake ≡ 0 → (t.r_asleep ≡ 0) ⊎ (0 < t.r_awake)

up : {a : ℤ} (n m : ℕ) → a ≡ pos n → m ≡ suc n → a +ℤ pos 1 ≡ pos m
unfolding ◌+ℤ◌
up n m h e = rw (h, e) (ground arith)

pub down : {a : ℤ} (n m : ℕ) → a ≡ pos n → suc m ≡ n → a -ℤ pos 1 ≡ pos m
unfolding ◌-ℤ◌
down n m h e = rw (h, ← e) (ground arith)

pub same_count : {a : ℤ} (n m : ℕ) → a ≡ pos n → m ≡ n → a ≡ pos m
same_count n m h e = h ∙ ap pos (sym e)

-- What the two tests say.
pub allows_reader :
    (lock : Rwlock) (t : Tally)
    → Balanced lock t
    → allow_reader lock ≡ true
    → t.writers + t.w_asleep + t.w_awake ≡ 0
unfolding allow_reader
allows_reader lock t v h = ground (arith, v.is_writers, v.is_waiting_w)

pub refuses_reader :
    (lock : Rwlock) (t : Tally)
    → Balanced lock t
    → allow_reader lock ≡ false
    → 0 < t.writers + t.w_asleep + t.w_awake
unfolding allow_reader
refuses_reader lock t v h = ground (arith, v.is_writers, v.is_waiting_w)

pub allows_writer :
    (lock : Rwlock) (t : Tally)
    → Balanced lock t
    → allow_writer lock ≡ true
    → t.writers + t.readers ≡ 0
unfolding allow_writer
allows_writer lock t v h = ground (arith, v.is_writers, v.is_readers)

pub refuses_writer :
    (lock : Rwlock) (t : Tally)
    → Balanced lock t
    → allow_writer lock ≡ false
    → 0 < t.writers + t.readers
unfolding allow_writer
refuses_writer lock t v h = ground (arith, v.is_writers, v.is_readers)

-- A thread on its way into a call counts as one that is awake.
pub begin_read-Balanced :
    (lock : Rwlock) (t : Tally)
    → Balanced lock t
    → Balanced (begin_read lock) (plus Thread.read_awake t)
unfolding begin_read
begin_read-Balanced lock t v = record {
  is_readers = v.is_readers;
  is_writers = v.is_writers;
  is_waiting_r = up (t.r_asleep + t.r_awake) _ v.is_waiting_r (omega arith);
  is_waiting_w = v.is_waiting_w;
  one_writer = v.one_writer;
  apart = v.apart;
  writers_up = v.writers_up;
  reader_up = λ _. inr (omega arith);
}

pub begin_write-Balanced :
    (lock : Rwlock) (t : Tally)
    → Balanced lock t
    → Balanced (begin_write lock) (plus Thread.write_awake t)
unfolding begin_write
begin_write-Balanced lock t v = record {
  is_readers = v.is_readers;
  is_writers = v.is_writers;
  is_waiting_r = v.is_waiting_r;
  is_waiting_w = up (t.w_asleep + t.w_awake) _ v.is_waiting_w (omega arith);
  one_writer = v.one_writer;
  apart = v.apart;
  writers_up = v.writers_up;
  reader_up = λ h. absurd (omega arith);
}

-- The four ends of a try.
pub read-Balanced :
    (lock : Rwlock) (t u : Tally)
    → Balanced lock t
    → plus Thread.read_awake u ≡ plus Thread.reading t
    → t.writers + t.w_asleep + t.w_awake ≡ 0
    → Balanced (end_read true lock) u
unfolding end_read
read-Balanced lock t u v h z =
    let (a, b, c, d, e, f) = entries h in
    record {
      is_readers = up t.readers u.readers v.is_readers a;
      is_writers = same_count t.writers u.writers v.is_writers b;
      is_waiting_r = down (t.r_asleep + t.r_awake) _ v.is_waiting_r (omega arith);
      is_waiting_w = same_count (t.w_asleep + t.w_awake) _ v.is_waiting_w (omega arith);
      one_writer = omega (arith, v.one_writer);
      apart = λ p. absurd (omega arith);
      writers_up = λ p. absurd (omega arith);
      reader_up = λ p. absurd (omega arith);
    }

pub read_asleep-Balanced :
    (lock : Rwlock) (t u : Tally)
    → Balanced lock t
    → plus Thread.read_awake u ≡ plus Thread.read_asleep t
    → 0 < t.writers + t.w_asleep + t.w_awake
    → Balanced lock u
read_asleep-Balanced lock t u v h z =
    let (a, b, c, d, e, f) = entries h in
    record {
      is_readers = same_count t.readers u.readers v.is_readers a;
      is_writers = same_count t.writers u.writers v.is_writers b;
      is_waiting_r = same_count (t.r_asleep + t.r_awake) _ v.is_waiting_r (omega arith);
      is_waiting_w = same_count (t.w_asleep + t.w_awake) _ v.is_waiting_w (omega arith);
      one_writer = omega (arith, v.one_writer);
      apart = λ p. a ∙ v.apart (omega arith);
      writers_up = λ p. e ∙ v.writers_up (omega arith);
      reader_up = λ p. absurd (omega arith);
    }

pub write-Balanced :
    (lock : Rwlock) (t u : Tally)
    → Balanced lock t
    → plus Thread.write_awake u ≡ plus Thread.writing t
    → t.writers + t.readers ≡ 0
    → Balanced (end_write true lock) u
unfolding end_write
write-Balanced lock t u v h z =
    let (a, b, c, d, e, f) = entries h in
    record {
      is_readers = same_count t.readers u.readers v.is_readers a;
      is_writers = up t.writers u.writers v.is_writers b;
      is_waiting_r = same_count (t.r_asleep + t.r_awake) _ v.is_waiting_r (omega arith);
      is_waiting_w = down (t.w_asleep + t.w_awake) _ v.is_waiting_w (omega arith);
      one_writer = omega arith;
      apart = λ p. omega arith;
      writers_up = λ p. absurd (omega arith);
      reader_up = λ p. absurd (omega arith);
    }

pub write_asleep-Balanced :
    (lock : Rwlock) (t u : Tally)
    → Balanced lock t
    → plus Thread.write_awake u ≡ plus Thread.write_asleep t
    → 0 < t.writers + t.readers
    → Balanced lock u
write_asleep-Balanced lock t u v h z =
    let (a, b, c, d, e, f) = entries h in
    record {
      is_readers = same_count t.readers u.readers v.is_readers a;
      is_writers = same_count t.writers u.writers v.is_writers b;
      is_waiting_r = same_count (t.r_asleep + t.r_awake) _ v.is_waiting_r (omega arith);
      is_waiting_w = same_count (t.w_asleep + t.w_awake) _ v.is_waiting_w (omega arith);
      one_writer = omega (arith, v.one_writer);
      apart = λ p. a ∙ v.apart (omega arith);
      writers_up = λ p. absurd (omega arith);
      reader_up = λ p. absurd (omega arith);
    }
