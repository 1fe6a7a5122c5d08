-- ===== src/Packet/Verdict.antt =====
-- C/arbitrator/verdict.h, and how decide of C/arbitrator/packet_logic.c adds the verdict of one chain
-- to what the chains before it said.
use ip_noise.Common.{Bool, true, Option, some, if◌then◌else◌}
use ip_noise.Common.Fault.{◌>>=◌}
use ip_noise.Common.Int.{ℤ, ◌+ℤ◌, is_zero, int_or_fault}
pub mod Laws

-- `delay_len` is set and read only with the action IP_NOISE_VERDICT_DELAY.
pub data Action : Type 0 where
  accept drop : Action
  delay : ℤ → Action

-- `processed` is the flag IP_NOISE_VERDICT_FLAG_PROCESSED.
pub record Verdict : Type 0 where
  pub action : Action
  pub processed : Bool

-- The chain's verdict is a delay. Both delays are of type `int`.
unfoldable pub accumulate_delay : Verdict → ℤ → Option Verdict
unfolding int_or_fault
accumulate_delay global d = elim global.action [
  | drop ↦ some global
  | delay g ↦ int_or_fault (g +ℤ d) >>= λ sum. some (record global { action = delay sum })
  | accept ↦ some (record { action = delay d; processed = true })
]

-- The body of the loop of decide, after the call of chain_decide.
unfoldable pub accumulate : Verdict → Verdict → Option Verdict
unfolding accumulate_delay
accumulate global chain = elim chain.action [
  | drop ↦ some (record { action = drop; processed = true })
  | delay d ↦ accumulate_delay global d
  | accept ↦ some (if chain.processed then record global { processed = true } else global)
]

-- A delay of 0 is an acceptance.
unfoldable pub settle : Action → Action
settle accept = accept
settle drop = drop
settle (delay d) = if is_zero d then accept else delay d
