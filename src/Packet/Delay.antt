-- ===== src/Packet/Delay.antt =====
-- How chain_decide of C/arbitrator/packet_logic.c chooses the delay of a packet, and when it lets the
-- packet go.
pub mod Laws
use Prim.Native.Nat.{Ordering}
use ip_noise.BinarySearch.{bsearch}
use ip_noise.Common.{ℕ, zero, suc, ◌+◌, Option, none, some, List, if◌then◌else◌, get_elem?}
use ip_noise.Common.Fault.{◌>>=◌}
use ip_noise.Common.Int.{ℤ, pos, ◌+ℤ◌, ◌-ℤ◌, wrap32, div_ℤ, scale, int_or_fault, is_zero, is_neg}
use ip_noise.Model.{
  Externals, Timeval, no_delay, exp, split_linear, Point, DelayParams, lambda, points, State, Chain,
  Env, now, after_now, after_rand, rand_in_0_1,
}
use ip_noise.Time.{add_delay}

module _ (x : Externals) where
  -- `if (prob < prob_delta) prob = prob_delta;`
  unfoldable pub at_least_delta : x.Double → x.Double
  at_least_delta p = if x.lt p x.prob_delta then x.prob_delta else p

  -- The sign of compare_prob_and_delay_points, with the pseudo-point of probability `p`.
  unfoldable pub compare_points : x.Double → Point x → Ordering
  compare_points p q =
      if x.lt p q.prob then Ordering.lt else if x.lt q.prob p then Ordering.gt else Ordering.eq

  -- The formula for the delay between two points.
  unfoldable pub interpolate : x.Double → Point x → Point x → Option ℤ
  interpolate p a b = do
    let width = x.sub b.prob a.prob
    let left = x.mul (x.sub p a.prob) (x.of_int (pos a.delay))
    let right = x.mul (x.sub b.prob p) (x.of_int (pos b.delay))
    if x.lt width x.prob_delta
        then (do
          sum ← int_or_fault (pos (a.delay + b.delay))
          some (x.to_int (x.of_int (div_ℤ sum 2))))
        else some (x.to_int (x.div (x.add left right) width))

  -- `searched--`, and what is read there: an index before the array is a fault.
  unfoldable pub point_before : List (Point x) → ℕ → Option (Point x)
  point_before ps zero = none
  point_before ps (suc i) = get_elem? ps i

  -- The delay of the function IP_NOISE_DELAY_FUNCTION_SPLIT_LINEAR at a drawn probability.
  unfoldable pub split_linear_delay : List (Point x) → x.Double → Option ℤ
  unfolding point_before
  split_linear_delay ps p = do
    r ← bsearch (compare_points p) ps
    a ← point_before ps r.index
    if r.found then some (pos a.delay) else do b ← get_elem? ps r.index; interpolate p a b

  unfoldable pub points_of : DelayParams x → Option (List (Point x))
  points_of (points ps) = some ps
  points_of _ = none

  unfoldable pub lambda_of : DelayParams x → Option ℕ
  lambda_of (lambda n) = some n
  lambda_of _ = none

  -- The choice of `delay`, which draws at most one random number.
  unfoldable pub choose_delay : State x → Env → Option (ℤ × Env)
  unfolding split_linear_delay lambda_of points_of after_rand
  choose_delay s e = elim s.delay_type [
    | exp ↦ do
      l ← lambda_of s.delay_params
      let prob = at_least_delta (rand_in_0_1 x e)
      some (x.to_int (x.mul (x.neg_log prob) (x.of_int (pos l))), after_rand e)
    | split_linear ↦ do
      ps ← points_of s.delay_params
      d ← split_linear_delay ps (rand_in_0_1 x e)
      some (d, after_rand e)
    | no_delay ↦ some (pos 0, e)
  ]

-- The delay that brings the release `d` after the last one, never negative. The difference of the
-- times is converted to `int`.
unfoldable pub stable_delay : Timeval → Timeval → ℤ → Option ℤ
unfolding div_ℤ scale wrap32 ◌+ℤ◌ ◌-ℤ◌
stable_delay last tv d = do
  next ← add_delay last d
  let wait = wrap32 (scale 1000 (next.sec -ℤ tv.sec) +ℤ div_ℤ (next.usec -ℤ tv.usec) 1000)
  some (if is_neg wait then pos 0 else wait)

-- `if (chain->last_packet_release_time.tv_sec == 0) chain->last_packet_release_time = tv;`
unfoldable pub last_release : Timeval → Timeval → Timeval
last_release last tv = if is_zero last.sec then tv else last

module _ (x : Externals) where
  -- What chain_decide does once a delay is chosen: the delay, and the chain with the new release time.
  unfoldable pub schedule : State x → Chain x → ℤ → Env → Option (ℤ × Chain x × Env)
  unfolding stable_delay last_release after_rand after_now
  schedule s c d e =
      let tv = now (after_rand e) in
      let last = last_release c.last_packet_release_time tv in
      let stable = x.lt (rand_in_0_1 x e) s.stable_delay_prob in
      do
        wait ← if stable then stable_delay last tv d else some d
        release ← add_delay tv wait
        some (wait, record c { last_packet_release_time = release }, after_now (after_rand e))
