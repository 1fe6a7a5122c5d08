-- ===== src/Rwlock.antt =====
-- The readers-writers lock of C/arbitrator/rwlock.c, in the program's build, and the threads that share
-- one. Each call does its work between taking the mutex and giving it up, by a wait or at its end.
pub mod Tally
pub mod Invariant
pub mod Steps
pub mod Progress
use ip_noise.Common.{
  ℕ, zero, suc, ◌≡◌, ◌≢◌, Bool, true, false, ◌&&◌, some, List, [], ◌∷◌, map, if◌then◌else◌,
  get_elem?, set,
}
use ip_noise.Common.Int.{ℤ, pos, ◌+ℤ◌, ◌-ℤ◌, is_zero}

-- ip_noise_rwlock_t, without the mutex and the conditions
pub record Rwlock : Type 0 where
  pub fairness_counter : ℤ
  pub active_readers : ℤ
  pub active_writers : ℤ
  pub waiting_readers : ℤ
  pub waiting_writers : ℤ

-- ip_noise_rwlock_alloc, which leaves the fairness counter as it finds it.
unfoldable pub rwlock_alloc : ℤ → Rwlock
rwlock_alloc garbage = record {
  fairness_counter = garbage;
  active_readers = pos 0;
  active_writers = pos 0;
  waiting_readers = pos 0;
  waiting_writers = pos 0;
}

-- ip_noise_rwlock_allow_reader
unfoldable pub allow_reader : Rwlock → Bool
allow_reader lock = is_zero lock.active_writers && is_zero lock.waiting_writers

-- ip_noise_rwlock_allow_writer
unfoldable pub allow_writer : Rwlock → Bool
allow_writer lock = is_zero lock.active_writers && is_zero lock.active_readers

-- ip_noise_rwlock_down_read up to the loop,
unfoldable pub begin_read : Rwlock → Rwlock
unfolding ◌+ℤ◌
begin_read lock = record lock { waiting_readers = lock.waiting_readers +ℤ pos 1 }

-- and behind it; the flag is `ret == 0`.
unfoldable pub end_read : Bool → Rwlock → Rwlock
unfolding ◌+ℤ◌ ◌-ℤ◌
end_read ok lock =
    let r = record lock { waiting_readers = lock.waiting_readers -ℤ pos 1 } in
    if ok then record r { active_readers = r.active_readers +ℤ pos 1 } else r

-- The same for ip_noise_rwlock_down_write.
unfoldable pub begin_write : Rwlock → Rwlock
unfolding ◌+ℤ◌
begin_write lock = record lock { waiting_writers = lock.waiting_writers +ℤ pos 1 }

unfoldable pub end_write : Bool → Rwlock → Rwlock
unfolding ◌+ℤ◌ ◌-ℤ◌
end_write ok lock =
    let r = record lock { waiting_writers = lock.waiting_writers -ℤ pos 1 } in
    if ok then record r { active_writers = r.active_writers +ℤ pos 1 } else r

-- The test of the loop: whether the call goes on, and the lock behind it. A wait has given `ret` before.
unfoldable pub try_read : Rwlock → Bool × Rwlock
unfolding allow_reader end_read
try_read lock = if allow_reader lock then (true, end_read true lock) else (false, lock)

unfoldable pub try_write : Rwlock → Bool × Rwlock
unfolding allow_writer end_write
try_write lock = if allow_writer lock then (true, end_write true lock) else (false, lock)

-- ip_noise_rwlock_up_read, without its two notifications
unfoldable pub release_read : Rwlock → Rwlock
unfolding ◌-ℤ◌
release_read lock = record lock {
  active_readers = lock.active_readers -ℤ pos 1;
  fairness_counter = lock.fairness_counter -ℤ pos 1;
}

-- ip_noise_rwlock_up_write, without its two notifications
unfoldable pub release_write : Rwlock → Rwlock
unfolding ◌+ℤ◌ ◌-ℤ◌
release_write lock = record lock {
  active_writers = lock.active_writers -ℤ pos 1;
  fairness_counter = lock.fairness_counter +ℤ pos 1;
}

-- Where a thread is, outside of the mutex. A thread that is `awake` is on its way out of the wait.
pub data Thread : Type 0 where
  idle : Thread
  read_asleep : Thread
  read_awake : Thread
  reading : Thread
  write_asleep : Thread
  write_awake : Thread
  writing : Thread

-- pthread_cond_broadcast on `cond_write`
abbrev pub wake_writer : Thread → Thread
wake_writer write_asleep = write_awake
wake_writer idle = idle
wake_writer read_asleep = read_asleep
wake_writer read_awake = read_awake
wake_writer reading = reading
wake_writer write_awake = write_awake
wake_writer writing = writing

-- pthread_cond_signal on `cond_read`: it wakes one reader that waits, if there is one.
pub data Signals (l : List Thread) : List Thread → Type 0 where
  nobody : ((j : ℕ) → get_elem? l j ≢ some Thread.read_asleep) → Signals l l
  one : (j : ℕ) → get_elem? l j ≡ some Thread.read_asleep → Signals l (set l j Thread.read_awake)

-- What a thread does with the mutex, in a call that takes the lock. No wait fails.
pub data Move (lock : Rwlock) : Thread → Rwlock → Thread → Type 0 where
  down_read :
      Move lock Thread.idle
        (try_read (begin_read lock)).1
        (if (try_read (begin_read lock)).0 then Thread.reading else Thread.read_asleep)
  retry_read :
      Move lock Thread.read_awake
        (try_read lock).1
        (if (try_read lock).0 then Thread.reading else Thread.read_asleep)
  down_write :
      Move lock Thread.idle
        (try_write (begin_write lock)).1
        (if (try_write (begin_write lock)).0 then Thread.writing else Thread.write_asleep)
  retry_write :
      Move lock Thread.write_awake
        (try_write lock).1
        (if (try_write lock).0 then Thread.writing else Thread.write_asleep)

pub record System : Type 0 where
  pub lock : Rwlock
  pub threads : List Thread

-- A step of thread `i`.
pub data Step (s : System) : System → Type 0 where
  move :
      (i : ℕ) {p q : Thread} {l : Rwlock}
      → get_elem? s.threads i ≡ some p
      → Move s.lock p l q
      → Step s (record { lock = l; threads = set s.threads i q })
  up_read :
      (i : ℕ) {l : List Thread}
      → get_elem? s.threads i ≡ some Thread.reading
      → Signals (map wake_writer (set s.threads i Thread.idle)) l
      → Step s (record { lock = release_read s.lock; threads = l })
  up_write :
      (i : ℕ) {l : List Thread}
      → get_elem? s.threads i ≡ some Thread.writing
      → Signals (map wake_writer (set s.threads i Thread.idle)) l
      → Step s (record { lock = release_write s.lock; threads = l })
  -- A wait ends for no reason.
  spurious_read :
      (i : ℕ)
      → get_elem? s.threads i ≡ some Thread.read_asleep
      → Step s (record s { threads = set s.threads i Thread.read_awake })
  spurious_write :
      (i : ℕ)
      → get_elem? s.threads i ≡ some Thread.write_asleep
      → Step s (record s { threads = set s.threads i Thread.write_awake })

abbrev pub all_idle : ℕ → List Thread
all_idle zero = []
all_idle (suc n) = Thread.idle ∷ all_idle n

-- `n` threads with a new lock.
pub data Reached (garbage : ℤ) (n : ℕ) : System → Type 0 where
  begin : Reached garbage n (record { lock = rwlock_alloc garbage; threads = all_idle n })
  later : {s t : System} → Reached garbage n s → Step s t → Reached garbage n t
