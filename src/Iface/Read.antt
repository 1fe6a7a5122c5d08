-- ===== src/Iface/Read.antt =====
-- The readers of C/arbitrator/iface.c. Bytes that arrive while a transaction reads are as if they had
-- been there when it began: the queue is only appended to, and a read that finds too few bytes ends
-- the transaction.
pub mod Moves
pub mod Fuel
use ip_noise.Common.{
  ℕ, zero, suc, ◌+◌, ◌-◌, ◌*◌, ◌^◌, inl, inr, Bool, not, ◌||◌, none, some, List, [], ◌∷◌, ltb, ◌==◌,
  if◌then◌else◌, length, set, get_or,
}
use ip_noise.Common.Int.{ℤ, pos}
use ip_noise.Iface.Monad.{
  Iface, done, failed, exits, out_of_fuel, M, ◌>>=◌, ◌>>◌, pure, stop, get, or_fault,
}
use ip_noise.Model.{
  Externals, PortRange, IpSpec, IpFilter, WhichLen, dont_care, gt, lt, between, not_between,
  DelayType, no_delay, exp, split_linear, Point,
}
use ip_noise.Model.Alloc.{id_len, zero_prob, one_prob}
use ip_noise.TextQueue.In.{read_bytes}

-- An entry of the union param_t, with the member that is set.
pub data Param (x : Externals) : Type 0 where
  string : List ℕ → Param x
  int : ℕ → Param x
  chain : ℤ → Param x
  state : ℤ → Param x
  ip_filter : IpFilter → Param x
  bool : Bool → Param x
  which_packet_length : WhichLen → Param x
  prob : x.Double → Param x
  delay_function_type : DelayType → Param x
  split_linear_points : List (Point x) → Param x
  lambda_value : ℕ → Param x
  delay_value : ℕ → Param x

-- enum IP_NOISE_PARAM_TYPE_T, without PARAM_TYPE_NONE, which only fills the table
pub data ParamType : Type 0 where
  string int chain state ip_filter bool which_packet_length prob : ParamType
  delay_function_type split_linear_points lambda_value delay_value : ParamType

-- The number of four bytes, the lowest first.
unfoldable pub le32 : List ℕ → ℕ
le32 b = get_or b 0 0 + get_or b 1 0 * 2 ^ 8 + get_or b 2 0 * 2 ^ 16 + get_or b 3 0 * 2 ^ 24

-- The address of four bytes, the highest first.
unfoldable pub be32 : List ℕ → ℕ
be32 b = get_or b 0 0 * 2 ^ 24 + get_or b 1 0 * 2 ^ 16 + get_or b 2 0 * 2 ^ 8 + get_or b 3 0

-- `if (ret < 0) ret = 0;` on the `int` with this bit pattern
unfoldable pub clamp_int : ℕ → ℕ
clamp_int n = if ltb n (2 ^ 31) then n else 0

-- The numbers 0 to 4, and IP_NOISE_WHICH_PACKET_LEN_DONT_CARE for any other.
unfoldable pub which_of : ℕ → WhichLen
which_of n =
    if n == 1
    then gt
    else if n == 2
    then lt
    else if n == 3
    then between
    else if n == 4
    then not_between
    else dont_care

unfoldable pub delay_type_of : ℕ → DelayType
delay_type_of n = if n == 0 then exp else if n == 1 then split_linear else no_delay

-- The address that ends a filter, 255.255.255.255.
abbrev pub terminator : ℕ
terminator = 2 ^ 32 - 1

module _ (x : Externals) where
  -- ip_noise_read
  unfoldable pub read : ℕ → M x (List ℕ)
  read n s = elim (read_bytes s.text_queue_in n) [
    | inl e ↦ (failed e, s)
    | inr (bytes, q) ↦ (done bytes, record s { text_queue_in = q })
  ]

  unfoldable pub read_int : M x ℕ
  unfolding le32 clamp_int read
  read_int = do bytes ← read 4; pure (clamp_int (le32 bytes))

  unfoldable pub read_uint16 : M x ℕ
  unfolding read
  read_uint16 = do bytes ← read 2; pure (get_or bytes 0 0 + get_or bytes 1 0 * 256)

  -- PARAM_TYPE_STRING
  unfoldable pub read_string : M x (List ℕ)
  unfolding read
  read_string = do bytes ← read id_len; pure (set bytes (id_len - 1) 0)

  -- PARAM_TYPE_CHAIN
  unfoldable pub read_chain : M x ℤ
  unfolding read_int
  read_chain = do which ← read_int; s ← get; if which == 2 then pure s.last_chain else stop exits

  -- PARAM_TYPE_STATE
  unfoldable pub read_state : M x ℤ
  unfolding read_int
  read_state = do
    which ← read_int
    s ← get
    let by_index : M x ℤ = (read_int >>= λ n. pure (pos n))
    if which == 0 then by_index else if which == 2 then or_fault s.last_state else stop exits

  -- PARAM_TYPE_PROB
  unfoldable pub clamp_prob : x.Double → x.Double
  clamp_prob d = if x.lt d (zero_prob x) || x.lt (one_prob x) d then zero_prob x else d

  unfoldable pub read_prob : M x x.Double
  unfolding read clamp_prob
  read_prob = do bytes ← read 8; pure (clamp_prob (x.decode bytes))

  -- The inner `while (1)` of PARAM_TYPE_IP_FILTER: ranges up to one with start > end.
  unfoldable pub read_port_ranges : ℕ → M x (List PortRange)
  unfolding read_uint16
  read_port_ranges zero = stop out_of_fuel
  read_port_ranges (suc fuel) = do
    start ← read_uint16
    end ← read_uint16
    let more : M x (List PortRange) =
        (read_port_ranges fuel >>= λ rs. pure (record { start = start; end = end } ∷ rs))
    if ltb end start then pure [] else more

  -- Every round of a loop reads at least one byte, so that this fuel is enough.
  abbrev pub fuel_for : Iface x → ℕ
  fuel_for s = s.text_queue_in.length + 1

  unfoldable pub read_all_port_ranges : M x (List PortRange)
  unfolding read_port_ranges
  read_all_port_ranges = do s ← get; read_port_ranges (fuel_for s)

  -- The outer `while` of PARAM_TYPE_IP_FILTER: components up to the terminator.
  unfoldable pub read_specs : ℕ → M x IpFilter
  unfolding read be32 read_int read_all_port_ranges
  read_specs zero = stop out_of_fuel
  read_specs (suc fuel) = do
    bytes ← read 4
    mask ← read_int
    ranges ← read_all_port_ranges
    let spec : IpSpec = record { ip = be32 bytes; net_mask = mask; port_ranges = ranges }
    let more : M x IpFilter = (read_specs fuel >>= λ specs. pure (some spec ∷ specs))
    if be32 bytes == terminator then pure [] else more

  -- PARAM_TYPE_IP_FILTER. With no component the first node is returned with its fields unset.
  unfoldable pub filter_of : IpFilter → IpFilter
  filter_of [] = none ∷ []
  filter_of (s ∷ specs) = s ∷ specs

  unfoldable pub read_ip_filter : M x IpFilter
  unfolding read_specs filter_of
  read_ip_filter = do s ← get; specs ← read_specs (fuel_for s); pure (filter_of specs)

  -- The `do … while (prob < 1)` of PARAM_TYPE_SPLIT_LINEAR_POINTS
  unfoldable pub read_points : ℕ → M x (List (Point x))
  unfolding read_prob read_int
  read_points zero = stop out_of_fuel
  read_points (suc fuel) = do
    p ← read_prob
    d ← read_int
    let point : Point x = record { prob = p; delay = d }
    let more : M x (List (Point x)) = (read_points fuel >>= λ ps. pure (point ∷ ps))
    if x.lt p (one_prob x) then more else pure (point ∷ [])

  -- read_param_type
  unfoldable pub read_param_type : ParamType → M x (Param x)
  unfolding read_int read_string read_chain read_state read_prob read_ip_filter read_points which_of
      delay_type_of
  read_param_type ParamType.string = do v ← read_string; pure (Param.string v)
  read_param_type ParamType.int = do v ← read_int; pure (Param.int v)
  read_param_type ParamType.chain = do v ← read_chain; pure (Param.chain v)
  read_param_type ParamType.state = do v ← read_state; pure (Param.state v)
  read_param_type ParamType.ip_filter = do v ← read_ip_filter; pure (Param.ip_filter v)
  read_param_type ParamType.bool = do v ← read_int; pure (Param.bool (not (v == 0)))
  read_param_type ParamType.which_packet_length = do
    v ← read_int
    pure (Param.which_packet_length (which_of v))
  read_param_type ParamType.prob = do v ← read_prob; pure (Param.prob v)
  read_param_type ParamType.delay_function_type = do
    v ← read_int
    pure (Param.delay_function_type (delay_type_of v))
  read_param_type ParamType.split_linear_points = do
    s ← get
    v ← read_points (fuel_for s)
    pure (Param.split_linear_points v)
  read_param_type ParamType.lambda_value = do v ← read_int; pure (Param.lambda_value v)
  read_param_type ParamType.delay_value = do
    v ← read_int
    pure (Param.delay_value (if v == 0 then 1000 else v))
