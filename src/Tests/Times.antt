-- ===== src/Tests/Times.antt =====
-- The priority queue, and the delayer on it.
use mathlib.Core.List.{Mem, mem-cons_self}
use ip_noise.Common.{ℕ, ◌+◌, ◌*◌, ◌≡◌, refl, false, some, [], arith}
use ip_noise.Common.Int.{pos, ◌+ℤ◌, scale, int_or_fault}
use ip_noise.Delayer.{
  Delayed, delayed_cmp, delayer_alloc, needs_signal, delay_packet, is_due, release, deadline,
}
use ip_noise.Delayer.Delay.{Covers}
use ip_noise.Delayer.Order.{delayed_cmp-Orders, IsDelayer}
use ip_noise.Delayer.Release.{Releases, release-Releases}
use ip_noise.Delayer.Thread.{System, Step, Reached, Phase, Turn, Turns}
use ip_noise.Delayer.Thread.Progress.{Reached-releases}
use ip_noise.Delayer.Thread.Wake.{Reached-Covers}
use ip_noise.Model.{Timeval}
use ip_noise.PQueue.{
  PQueue, set_at, load, store, initialise, is_empty, peek_minimum, make_room, worse, rise, push,
  pop,
}
use ip_noise.PQueue.Heap.{IsQueue}
use ip_noise.PQueue.Items.{items}
use ip_noise.PQueue.Pop.{Takes, pop-Takes}
use ip_noise.Time.{carry, add_delay, timeval_cmp}

abbrev at_second : ℕ → Timeval
at_second n = record { sec = pos n; usec = pos 0 }

-- Two messages wait, for the seconds 10 and 20; the array is full.
abbrev two_waiting : PQueue Delayed
two_waiting = record {
  max_size = 2;
  current_size = 2;
  elements = λ i. record { m = 100 + i; tv = at_second (10 * i) };
  is_ascending = false;
}

two_waiting-IsQueue : IsQueue delayed_cmp two_waiting
unfolding worse delayed_cmp timeval_cmp
two_waiting-IsQueue = record {
  inside = omega arith;
  heap = λ c p l. let same : c ≡ 2 = omega arith in rw same refl;
}

two_waiting-IsDelayer : IsDelayer two_waiting
two_waiting-IsDelayer = record { valid = two_waiting-IsQueue; earliest_first = refl }

abbrev urgent : Delayed
urgent = record { m = 103; tv = at_second 5 }

pop-Takes_example : Takes delayed_cmp-Orders two_waiting (pop delayed_cmp two_waiting)
pop-Takes_example = pop-Takes delayed_cmp-Orders two_waiting two_waiting-IsQueue (omega arith)

release-Releases_example :
    Releases (at_second 15) two_waiting (release 3 (at_second 15) two_waiting)
release-Releases_example = release-Releases (at_second 15) two_waiting two_waiting-IsDelayer

-- The delayer with a message for second 7, which its thread has seen at second 3.
abbrev nothing : ℕ → Delayed
nothing i = record { m = 0; tv = at_second 0 }

abbrev one_waiting : PQueue Delayed
one_waiting = record {
  max_size = 10000;
  current_size = 1;
  elements = set_at nothing 1 (record { m = 103; tv = at_second 7 });
  is_ascending = false;
}

abbrev seen : System
seen = record {
  pq = one_waiting;
  now = at_second 3;
  phase = Phase.waiting (some (at_second 7));
  signalled = false;
  released = [];
}

seen-Reached : Reached nothing (at_second 3) seen
unfolding delay_packet add_delay carry ◌+ℤ◌ scale int_or_fault push rise make_room load store
    peek_minimum needs_signal delayer_alloc initialise release is_empty is_due timeval_cmp deadline
seen-Reached =
    Reached.later (Reached.later Reached.begin (Step.delay 103 (at_second 3) (pos 4000) refl))
      (Step.turn (Turn.check refl refl refl))

Reached-Covers_example : Covers (some (at_second 7)) one_waiting
Reached-Covers_example = Reached-Covers seen-Reached refl refl

abbrev due_time : System
due_time = record seen { now = at_second 8 }

due_time-Reached : Reached nothing (at_second 3) due_time
unfolding timeval_cmp
due_time-Reached = Reached.later seen-Reached (Step.tick (at_second 8) (λ e. cc))

Reached-releases_example :
    (t : System) × Turns due_time 3 t × Mem (record { m = 103; tv = at_second 7 }) t.released
unfolding timeval_cmp items set_at
Reached-releases_example =
    Reached-releases (record { m = 103; tv = at_second 7 }) due_time-Reached mem-cons_self (λ e. cc)
