-- ===== src/Tests/Locks.antt =====
-- The readers-writers lock, with a writer and a reader.
use ip_noise.Common.{ℕ, refl, ◌≢◌, inl, inr, [], ◌∷◌, arith}
use ip_noise.Common.Int.{pos, ◌+ℤ◌, ◌-ℤ◌}
use ip_noise.Rwlock.{
  rwlock_alloc, allow_reader, allow_writer, begin_read, end_read, begin_write, end_write, try_read,
  try_write, release_write, Thread, Signals, Move, System, Step, Reached,
}
use ip_noise.Rwlock.Progress.{Reached-writer_alone, IsWaiting, Proceeds, Reached-Proceeds}

-- Thread 0 writes, and thread 1 waits for it to read.
abbrev written : System
written = record {
  lock = record {
    fairness_counter = pos 0;
    active_readers = pos 0;
    active_writers = pos 1;
    waiting_readers = pos 1;
    waiting_writers = pos 0;
  };
  threads = Thread.writing ∷ Thread.read_asleep ∷ [];
}

written-Reached : Reached (pos 0) 2 written
unfolding ◌+ℤ◌ ◌-ℤ◌ rwlock_alloc try_read try_write begin_read begin_write end_read end_write
    allow_reader allow_writer
written-Reached =
    Reached.later (Reached.later Reached.begin (Step.move 0 refl Move.down_write))
      (Step.move 1 refl Move.down_read)

Reached-writer_alone_example :
    (Thread.read_asleep ≢ Thread.reading) × (Thread.read_asleep ≢ Thread.writing)
Reached-writer_alone_example =
    Reached-writer_alone 0 1 written-Reached refl (λ e. absurd (omega (arith, e))) refl

-- Thread 0 has given the lock back, and thread 1 is on its way out of the wait.
abbrev given_back : System
given_back = record {
  lock = record {
    fairness_counter = pos 1;
    active_readers = pos 0;
    active_writers = pos 0;
    waiting_readers = pos 1;
    waiting_writers = pos 0;
  };
  threads = Thread.idle ∷ Thread.read_awake ∷ [];
}

given_back-Reached : Reached (pos 0) 2 given_back
unfolding ◌+ℤ◌ ◌-ℤ◌ release_write
given_back-Reached = Reached.later written-Reached (Step.up_write 0 refl (Signals.one 1 refl))

Reached-Proceeds_example : (j : ℕ) × Proceeds given_back j
unfolding IsWaiting
Reached-Proceeds_example = Reached-Proceeds 1 given_back-Reached refl refl refl (inr (inl refl))
