-- ===== src/Tests/Flow.antt =====
-- Two packets on their way through the threads.
use ip_noise.Arbiter.{Message, Arbiter, arbitrate, receive}
use ip_noise.Common.{none, some, [], ◌∷◌, replicate}
use ip_noise.Common.Int.{pos}
use ip_noise.Delayer.{delayer_alloc}
use ip_noise.MessagesQueue.{MessagesQueue, queue_alloc}
use ip_noise.Model.{dont_care, no_delay, unset, Data}
use ip_noise.Tests.{toy}

-- A chain with one state that drops every packet.
abbrev blocked : Data toy
blocked = record {
  max_num_chains = 16;
  chains =
      record {
        name = none;
        max_num_states = 16;
        states =
            record {
              name = [];
              drop_prob = 1;
              delay_prob = 0;
              delay_type = no_delay;
              delay_params = unset;
              time_factor = 1000;
              move_tos = 1 ∷ [];
              stable_delay_prob = 0;
            }
            ∷ [];
        current_state = some 0;
        filter = record {
          source = [];
          dest = [];
          protocols = replicate 32 255;
          tos = replicate 8 255;
          min_packet_len = 0;
          max_packet_len = 0;
          which_packet_len = dont_care;
        };
        last_packet_release_time = record { sec = pos 0; usec = pos 0 };
        state_names = [];
      }
      ∷ [];
  chain_names = [];
}

abbrev header : Message
header = record {
  packet_id = 1;
  payload = replicate 20 0;
  tv = record { sec = pos 1; usec = pos 0 };
}

abbrev at_rest : Arbiter toy
at_rest = record {
  messages = λ i. header;
  queue = queue_alloc (λ i. none);
  data_in_use = blocked;
  env = record {
    draws = λ i. 0;
    drawn = 0;
    times = λ i. record { sec = pos i; usec = pos 0 };
    timed = 0;
  };
  pq = delayer_alloc (λ i. record { m = 0; tv = record { sec = pos 0; usec = pos 0 } });
  answers = [];
}

-- What a round of the thread makes of the state.
abbrev decided : Arbiter toy → Arbiter toy
decided s = elim (arbitrate toy s) [ none ↦ s | some t ↦ t ]

-- Message 7 was dropped, and message 9 is in the queue.
abbrev first_in : Arbiter toy
first_in = receive toy 7 header at_rest

abbrev both_in : Arbiter toy
both_in = receive toy 9 header (decided first_in)
