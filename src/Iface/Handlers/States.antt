-- ===== src/Iface/Handlers/States.antt =====
-- The handlers that change a state of a chain.
use ip_noise.Common.{ℕ, List, []}
use ip_noise.Common.Int.{ℤ}
use ip_noise.Iface.Handlers.Access.{
  Reply, ok_reply, other_type, with_state, put_state, change_state,
}
use ip_noise.Iface.Monad.{M, ◌>>◌, pure}
use ip_noise.Model.{
  Externals, DelayType, no_delay, exp, split_linear, Point, DelayParams, unset, lambda, points,
}

module _ (x : Externals) where
  unfoldable pub set_drop_delay_prob : ℤ → ℤ → x.Double → x.Double → M x Reply
  unfolding change_state
  set_drop_delay_prob i j p q = change_state x i j λ s. record s { drop_prob = p; delay_prob = q }

  -- The union behind a change of the type: the points are freed, or set to none.
  unfoldable pub retyped : DelayType → DelayType → DelayParams x → DelayParams x
  retyped old split_linear p = points []
  retyped split_linear new p = unset
  retyped old new p = p

  unfoldable pub set_delay_type : ℤ → ℤ → DelayType → M x Reply
  unfolding change_state retyped
  set_delay_type i j t =
      change_state x i j
        λ s. record s { delay_type = t; delay_params = retyped s.delay_type t s.delay_params }

  -- The handlers that first test the type of the delay function.
  unfoldable pub set_split_linear_points : ℤ → ℤ → List (Point x) → M x Reply
  unfolding with_state put_state
  set_split_linear_points i j ps = with_state x i j λ c s. elim s.delay_type [
    | split_linear ↦ do put_state x i j c (record s { delay_params = points ps }); pure ok_reply
    | no_delay ↦ pure other_type
    | exp ↦ pure other_type
  ]

  unfoldable pub set_lambda : ℤ → ℤ → ℕ → M x Reply
  unfolding with_state put_state
  set_lambda i j l = with_state x i j λ c s. elim s.delay_type [
    | exp ↦ do put_state x i j c (record s { delay_params = lambda l }); pure ok_reply
    | no_delay ↦ pure other_type
    | split_linear ↦ pure other_type
  ]

  unfoldable pub set_time_factor : ℤ → ℤ → ℕ → M x Reply
  unfolding change_state
  set_time_factor i j factor = change_state x i j λ s. record s { time_factor = factor }

  unfoldable pub set_stable_delay_prob : ℤ → ℤ → x.Double → M x Reply
  unfolding change_state
  set_stable_delay_prob i j p = change_state x i j λ s. record s { stable_delay_prob = p }
