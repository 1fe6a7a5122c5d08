-- ===== src/Model/Alloc.antt =====
-- How C/arbitrator/iface.c makes, copies and clears the data. Every call of malloc is taken to succeed.
-- Freeing has no model: the functions ip_spec_free, state_free and chain_free of the code free what
-- nothing reaches any more.
use ip_noise.Common.{
  ℕ, zero, suc, ◌-◌, none, some, List, [], ◌∷◌, map, ◌==◌, if◌then◌else◌, set, replicate,
}
use ip_noise.Common.Int.{pos}
use ip_noise.Model.{
  Externals, IpFilter, dont_care, ChainFilter, DelayType, no_delay, exp, split_linear, DelayParams,
  unset, lambda, points, State, Chain, Data,
}

-- IP_NOISE_ID_LEN
abbrev pub id_len : ℕ
id_len = 80

-- strncpy of a name: the bytes up to the first 0, and zeros up to the length `n`.
unfoldable pub strncpy : ℕ → List ℕ → List ℕ
strncpy zero name = []
strncpy (suc n) [] = replicate (suc n) 0
strncpy (suc n) (c ∷ cs) =
    let rest = strncpy n cs in if c == 0 then replicate (suc n) 0 else c ∷ rest

-- A name as chain_alloc and state_alloc store it: its last byte is 0.
unfoldable pub stored_name : List ℕ → List ℕ
unfolding strncpy
stored_name name = set (strncpy id_len name) (id_len - 1) 0

module _ (x : Externals) where
  abbrev pub zero_prob : x.Double
  zero_prob = x.of_int (pos 0)

  abbrev pub one_prob : x.Double
  one_prob = x.of_int (pos 1)

  -- ip_noise_arbitrator_data_alloc
  unfoldable pub data_alloc : Data x
  data_alloc = record { max_num_chains = 16; chains = []; chain_names = x.no_names }

  -- chain_alloc. The release time is 0 in its seconds; `usec` of it is not set, and not read then.
  unfoldable pub chain_alloc : List ℕ → Chain x
  unfolding stored_name
  chain_alloc name = record {
    name = some (stored_name name);
    max_num_states = 0;
    states = [];
    current_state = none;
    filter = record {
      source = [];
      dest = [];
      protocols = replicate 32 255;
      tos = replicate 8 255;
      min_packet_len = 0;
      max_packet_len = 65535;
      which_packet_len = dont_care;
    };
    last_packet_release_time = record { sec = pos 0; usec = pos 0 };
    state_names = x.no_names;
  }

  -- state_alloc, with the array `move_tos` that the handler of new_state adds.
  unfoldable pub state_alloc : List ℕ → List x.Double → State x
  unfolding stored_name
  state_alloc name moves = record {
    name = stored_name name;
    drop_prob = zero_prob;
    delay_prob = zero_prob;
    delay_type = no_delay;
    delay_params = unset;
    time_factor = 1000;
    move_tos = moves;
    stable_delay_prob = zero_prob;
  }

  -- ip_spec_duplicate: a new node for each node of the list.
  unfoldable pub ip_spec_duplicate : IpFilter → IpFilter
  ip_spec_duplicate [] = []
  ip_spec_duplicate (none ∷ old) = none ∷ ip_spec_duplicate old
  ip_spec_duplicate (some s ∷ old) =
      some (record { ip = s.ip; net_mask = s.net_mask; port_ranges = s.port_ranges })
      ∷ ip_spec_duplicate old

  -- filter_duplicate
  unfoldable pub filter_duplicate : ChainFilter → ChainFilter
  unfolding ip_spec_duplicate
  filter_duplicate old = record {
    source = ip_spec_duplicate old.source;
    dest = ip_spec_duplicate old.dest;
    protocols = old.protocols;
    tos = old.tos;
    min_packet_len = old.min_packet_len;
    max_packet_len = old.max_packet_len;
    which_packet_len = old.which_packet_len;
  }

  -- The `switch` of state_duplicate: only the member of the union that the type names is copied.
  unfoldable pub params_duplicate : DelayType → DelayParams x → DelayParams x
  params_duplicate exp (lambda l) = lambda l
  params_duplicate split_linear (points ps) = points ps
  params_duplicate t p = unset

  -- state_duplicate
  unfoldable pub state_duplicate : State x → State x
  unfolding params_duplicate
  state_duplicate old = record {
    name = old.name;
    drop_prob = old.drop_prob;
    delay_prob = old.delay_prob;
    delay_type = old.delay_type;
    delay_params = params_duplicate old.delay_type old.delay_params;
    time_factor = old.time_factor;
    move_tos = old.move_tos;
    stable_delay_prob = old.stable_delay_prob;
  }

  -- chain_duplicate. The name is not copied.
  unfoldable pub chain_duplicate : Chain x → Chain x
  unfolding state_duplicate filter_duplicate
  chain_duplicate old = record {
    name = none;
    max_num_states = old.max_num_states;
    states = map state_duplicate old.states;
    current_state = old.current_state;
    filter = filter_duplicate old.filter;
    last_packet_release_time = old.last_packet_release_time;
    state_names = x.copy_names old.state_names;
  }

  -- ip_noise_arbitrator_data_duplicate
  unfoldable pub data_duplicate : Data x → Data x
  unfolding chain_duplicate
  data_duplicate old = record {
    max_num_chains = old.max_num_chains;
    chains = map chain_duplicate old.chains;
    chain_names = x.copy_names old.chain_names;
  }

  -- ip_noise_arbitrator_data_clear_all
  unfoldable pub clear_all : Data x → Data x
  clear_all d = record d { chains = []; chain_names = x.no_names }
