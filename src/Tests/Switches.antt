-- ===== src/Tests/Switches.antt =====
-- The switcher, with a chain of two states.
use native.Mathlib.Bridge.{le_prop}
use ip_noise.Common.{◌<◌, ◌≡◌, refl, true, false, some, [], ◌∷◌, arith, replicate}
use ip_noise.Common.Int.{pos}
use ip_noise.Iface.Sound.{ChainFits}
use ip_noise.Mask.Laws.{AllBytes-replicate}
use ip_noise.Model.{dont_care, no_delay, unset, State, Chain, Env, now, after_now, rand_in_0_1}
use ip_noise.PQueue.Items.{items, items-each}
use ip_noise.Packet.Delay.{at_least_delta}
use ip_noise.Switcher.{Switcher, delay_of, poll}
use ip_noise.Switcher.Handle.{IsReady}
use ip_noise.Switcher.Order.{IsEvents}
use ip_noise.Switcher.Poll.{Polls, poll-Polls}
use ip_noise.Switcher.Switch.{Forward, Bounded, Runs, Runs-move}
use ip_noise.Switcher.Start.{numbers_from, poll-restarts}
use ip_noise.Tests.{toy}
use ip_noise.Time.{timeval_cmp}

abbrev pub restless : State toy
restless = record {
  name = [];
  drop_prob = 1;
  delay_prob = 0;
  delay_type = no_delay;
  delay_params = unset;
  time_factor = 1000;
  move_tos = 0 ∷ 1 ∷ [];
  stable_delay_prob = 0;
}

abbrev pub pair_of_states : Chain toy
pair_of_states = record {
  name = some [];
  max_num_states = 16;
  states = restless ∷ restless ∷ [];
  current_state = some 1;
  filter = record {
    source = [];
    dest = [];
    protocols = replicate 32 255;
    tos = replicate 8 255;
    min_packet_len = 0;
    max_packet_len = 0;
    which_packet_len = dont_care;
  };
  last_packet_release_time = record { sec = pos 0; usec = pos 0 };
  state_names = [];
}

-- Each reading of the clock is a second after the one before.
abbrev ticking : Env
ticking = record {
  draws = λ i. 0;
  drawn = 0;
  times = λ i. record { sec = pos i; usec = pos 0 };
  timed = 5;
}

abbrev pub switcher : Switcher toy
switcher = record {
  reinit_switcher = false;
  pq = record {
    max_size = 30;
    current_size = 1;
    elements = λ i. record { tv = record { sec = pos 2; usec = pos 0 }; chain = 0 };
    is_ascending = false;
  };
  chains = pair_of_states ∷ [];
  env = ticking;
}

ticking-Forward : Forward ticking
unfolding timeval_cmp
ticking-Forward i = ground arith

-- The quotient of two numbers is 0 here.
no_chance : (env : Env) → rand_in_0_1 toy env ≡ 0
unfolding rand_in_0_1
no_chance env = omega arith

restless-Bounded : Bounded restless
unfolding delay_of at_least_delta
restless-Bounded env = (0, rw (no_chance env) refl, omega arith)

pair_of_states-fits : ChainFits toy pair_of_states
pair_of_states-fits = record {
  capacity = omega arith;
  moves = (refl, (refl, tt));
  protocols = record { size = refl; bytes = AllBytes-replicate 32 255 (omega arith) };
  tos = record { size = refl; bytes = AllBytes-replicate 8 255 (omega arith) };
}

pub pair_of_states-Runs : Runs pair_of_states
pair_of_states-Runs = record {
  fits = pair_of_states-fits;
  current = 1;
  current_is = refl;
  inside = omega arith;
  delays = (restless-Bounded, (restless-Bounded, tt));
  named = ([], refl);
}

switcher-IsEvents : IsEvents switcher.pq
switcher-IsEvents = record {
  valid = record { inside = omega arith; heap = λ c p l. absurd (omega arith) };
  earliest_first = refl;
}

switcher-IsReady : IsReady switcher
unfolding items
switcher-IsReady = record {
  events = switcher-IsEvents;
  chains = (pair_of_states-Runs, tt);
  settled = refl;
  known =
      items-each (λ a. a.chain < 1) (λ a. le_prop) switcher.pq.elements 1 (λ c p l. omega arith);
}

poll-Polls_example : Polls (now ticking) (0 ∷ []) (poll toy switcher)
unfolding items
poll-Polls_example = poll-Polls switcher switcher-IsReady ticking-Forward

-- The data in use was replaced.
abbrev asked : Switcher toy
asked = record switcher { reinit_switcher = true }

poll-restarts_example : Polls (now (after_now ticking)) (0 ∷ []) (poll toy asked)
unfolding numbers_from
poll-restarts_example =
    poll-restarts asked refl switcher-IsEvents
      (Runs-move pair_of_states 0 pair_of_states-Runs (omega arith), tt) ticking-Forward
