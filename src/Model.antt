-- ===== src/Model.antt =====
-- The data of C/arbitrator/iface.h: chains, their filters and their states; and what the code takes
-- from outside: the C type `double` with its operations, the dictionary of names (redblack.c, an
-- imported library), random bytes and the clock.
pub mod Alloc
use ip_noise.Common.{ℕ, ◌+◌, ◌%◌, ◌^◌, List, Option, Bool}
use ip_noise.Common.Int.{ℤ, pos}

-- What the code does not implement. `double` is the C type; `decode` reads one from 8 bytes;
-- `to_int` is the conversion `(int)`; `neg_log` is `-log(...)`. `Names` is a dictionary of
-- str2int_dict.c, kept in a red-black tree. `indeterminate` is what an `int` that was never set holds.
pub record Externals : Type 1 where
  pub Double : Type 0
  pub lt : Double → Double → Bool
  pub le : Double → Double → Bool
  pub add : Double → Double → Double
  pub sub : Double → Double → Double
  pub mul : Double → Double → Double
  pub div : Double → Double → Double
  pub of_int : ℤ → Double
  pub to_int : Double → ℤ
  pub neg_log : Double → Double
  pub prob_delta : Double
  pub decode : List ℕ → Double
  pub Names : Type 0
  pub no_names : Names
  pub add_name : Names → List ℕ → ℕ → Names
  pub copy_names : Names → Names
  pub indeterminate : ℕ

-- struct timeval
pub record Timeval : Type 0 where
  pub sec : ℤ
  pub usec : ℤ

-- ip_noise_port_range_t
pub record PortRange : Type 0 where
  pub start : ℕ
  pub end : ℕ

-- One node of the list ip_noise_ip_spec_t. The address is the 32-bit number that the code makes of
-- its four bytes; the ranges stand for `port_ranges` and `num_port_ranges`.
pub record IpSpec : Type 0 where
  pub ip : ℕ
  pub net_mask : ℕ
  pub port_ranges : List PortRange

-- A linked list of nodes, `[]` for NULL. A node whose fields were never set is `none`.
abbrev pub IpFilter : Type 0
IpFilter = List (Option IpSpec)

-- enum IP_NOISE_WHICH_PACKET_LEN_T
pub data WhichLen : Type 0 where
  dont_care gt lt between not_between : WhichLen

-- ip_noise_chain_filter_t. The masks are the bytes of the two arrays.
pub record ChainFilter : Type 0 where
  pub source : IpFilter
  pub dest : IpFilter
  pub protocols : List ℕ
  pub tos : List ℕ
  pub min_packet_len : ℕ
  pub max_packet_len : ℕ
  pub which_packet_len : WhichLen

-- enum IP_NOISE_DELAY_FUNCTION_T
pub data DelayType : Type 0 where
  no_delay exp split_linear : DelayType

module _ (x : Externals) where
  -- ip_noise_prob_and_delay_t
  pub record Point : Type 0 where
    pub prob : x.Double
    pub delay : ℕ

  -- The union `params` of ip_noise_delay_t: what was stored last, `unset` where that is nothing, or
  -- no longer valid. A null `points` with no points is the empty list.
  pub data DelayParams : Type 0 where
    unset : DelayParams
    lambda : ℕ → DelayParams
    points : List Point → DelayParams

  -- ip_noise_state_t. `move_tos` are the `comulative_prob` fields of the array, whose length is
  -- `num_move_tos`; nothing writes or reads `which_state`.
  pub record State : Type 0 where
    pub name : List ℕ
    pub drop_prob : x.Double
    pub delay_prob : x.Double
    pub delay_type : DelayType
    pub delay_params : DelayParams
    pub time_factor : ℕ
    pub move_tos : List x.Double
    pub stable_delay_prob : x.Double

  -- ip_noise_chain_t. `num_states` is the length of `states`. `none` is an indeterminate value:
  -- chain_alloc leaves `current_state` unset, and chain_duplicate leaves `name` unset.
  pub record Chain : Type 0 where
    pub name : Option (List ℕ)
    pub max_num_states : ℕ
    pub states : List State
    pub current_state : Option ℕ
    pub filter : ChainFilter
    pub last_packet_release_time : Timeval
    pub state_names : x.Names

  -- ip_noise_arbitrator_data_t. `num_chains` is the length of `chains`. The lock is in `Rwlock`.
  pub record Data : Type 0 where
    pub max_num_chains : ℕ
    pub chains : List Chain
    pub chain_names : x.Names

-- What the system hands out: the random numbers read from /dev/urandom and the times returned by
-- gettimeofday, in order, and how many of each were used.
pub record Env : Type 0 where
  pub draws : ℕ → ℕ
  pub drawn : ℕ
  pub times : ℕ → Timeval
  pub timed : ℕ

-- gettimeofday
unfoldable pub now : Env → Timeval
now e = e.times e.timed

unfoldable pub after_now : Env → Env
after_now e = record e { timed = e.timed + 1 }

-- ip_noise_rand_rand: four random bytes, `i &= 0x3FFFFFFF`.
unfoldable pub rand_rand : Env → ℕ
rand_rand e = e.draws e.drawn % 2 ^ 30

unfoldable pub after_rand : Env → Env
after_rand e = record e { drawn = e.drawn + 1 }

module _ (x : Externals) where
  -- ip_noise_rand_rand_in_0_1, with rand_normalizer = 10000000
  unfoldable pub rand_in_0_1 : Env → x.Double
  unfolding rand_rand
  rand_in_0_1 e = x.div (x.of_int (pos (rand_rand e % 10000000))) (x.of_int (pos 10000000))
