-- ===== src/Tests/Sessions.antt =====
-- A connection that makes a chain with one state, and the poll of the switcher behind it.
use ip_noise.TextQueue.In
use ip_noise.TextQueue.Out
use ip_noise.Common.{ℕ, false, none, List, [], ◌∷◌, ◌++◌, replicate}
use ip_noise.Common.Int.{pos, negsuc}
use ip_noise.Iface.Connection.{Server, init_connection, close_connection}
use ip_noise.Iface.Transact.{transact}
use ip_noise.Model.{Env}
use ip_noise.Model.Alloc.{data_alloc}
use ip_noise.PQueue.{PQueue}
use ip_noise.Switcher.{Event}
use ip_noise.Tests.{toy}
use ip_noise.TextQueue.In.{put_bytes}
use ip_noise.TextQueue.Out.{alloc}

-- The transactions new_chain, new_state on the new chain, and end_connection.
abbrev three_transactions : List ℕ
three_transactions =
    (0 ∷ 0 ∷ 0 ∷ 0 ∷ replicate 80 65)
    ++ (1 ∷ 0 ∷ 0 ∷ 0 ∷ 2 ∷ 0 ∷ 0 ∷ 0 ∷ replicate 80 66)
    ++ 0 ∷ 0 ∷ 1 ∷ 0 ∷ []

abbrev zeros : ℕ → ℕ
zeros i = 0

abbrev accepted : Server toy
accepted = init_connection toy zeros zeros (record {
  data_in_use = data_alloc toy;
  reinit_switcher = false;
  iface = record {
    data_copy = data_alloc toy;
    continue = false;
    last_chain = negsuc 0;
    last_state = none;
    text_queue_in = In.alloc zeros;
    text_queue_out = Out.alloc zeros;
  };
})

abbrev sent : Server toy
sent = record accepted {
  iface = record accepted.iface {
    text_queue_in = put_bytes accepted.iface.text_queue_in three_transactions;
  };
}

abbrev transacted : Server toy → Server toy
transacted s = record s { iface = (transact toy s.iface).1 }

abbrev ended : Server toy
ended = transacted (transacted (transacted sent))

abbrev replaced : Server toy
replaced = init_connection toy zeros zeros (close_connection toy ended)

-- The queue still has an event of before.
abbrev stale : PQueue Event
stale = record {
  max_size = 30;
  current_size = 1;
  elements = λ i. record { tv = record { sec = pos 2; usec = pos 0 }; chain = 4 };
  is_ascending = false;
}

abbrev clock : Env
clock = record {
  draws = λ i. 0;
  drawn = 0;
  times = λ i. record { sec = pos i; usec = pos 0 };
  timed = 5;
}
