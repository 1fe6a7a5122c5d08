-- ===== src/Packet/Decide.antt =====
-- chain_decide, decide and ip_noise_arbitrator_packet_logic_decide_what_to_do_with_packet of
-- C/arbitrator/packet_logic.c.
pub mod Refinement
use mathlib.Core.List.{filter}
use ip_noise.Common.{ℕ, Bool, true, false, Option, some, List, [], ◌∷◌, if◌then◌else◌, get_elem?}
use ip_noise.Common.Fault.{◌>>=◌}
use ip_noise.Model.{Externals, lt, State, Chain, Data, Env, after_rand, rand_in_0_1}
use ip_noise.Packet.Delay.{choose_delay, schedule}
use ip_noise.Packet.Filter.{is_in_chain_filter}
use ip_noise.Packet.Info.{PacketInfo, get_packet_info}
use ip_noise.Packet.Verdict.{drop, Action, accept, delay, Verdict, accumulate, settle}

-- The verdict before any chain was asked.
abbrev pub unprocessed : Verdict
unprocessed = record { action = accept; processed = false }

module _ (x : Externals) where
  -- What chain_decide returns: the verdict, the chain with its release time, and what is left of the
  -- random numbers and times.
  abbrev pub Decided : Type 0
  Decided = Option (Verdict × Chain x × Env)

  -- The current state of a chain.
  unfoldable pub current : Chain x → Option (State x)
  current c = do i ← c.current_state; get_elem? c.states i

  -- chain_decide behind the filter, in the state `s`.
  unfoldable pub decide_in_state : State x → Chain x → Env → Decided
  unfolding choose_delay schedule after_rand
  decide_in_state s c e =
      let p = rand_in_0_1 x e in
      let e' = after_rand e in
      if x.lt p s.drop_prob
      then some (record { action = drop; processed = true }, c, e')
      else if x.le p (x.add s.drop_prob s.delay_prob)
      then (do
        (d, e'') ← choose_delay x s e'
        (wait, c', e''') ← schedule x s c d e''
        some (record { action = delay wait; processed = true }, c', e'''))
      else some (record { action = accept; processed = true }, c, e')

  -- chain_decide. `ignore_filter` is set for the default chain.
  unfoldable pub chain_decide : Chain x → PacketInfo → Bool → Env → Decided
  unfolding current decide_in_state
  chain_decide c p ignore_filter e =
      let go : Decided = current c >>= λ s. decide_in_state s c e in
      if ignore_filter then go else do
        inside ← is_in_chain_filter c.filter p
        if inside then go else some (record { action = accept; processed = false }, c, e)

  -- The loop of decide over the chains from index 1 on, from the verdict so far.
  unfoldable pub decide_loop :
      List (Chain x) → PacketInfo → Verdict → Env → Option (Verdict × List (Chain x) × Env)
  decide_loop [] p v e = some (v, [], e)
  decide_loop (c ∷ cs) p v e = do
    (w, c', e') ← chain_decide c p false e
    v' ← accumulate v w
    (v'', cs', e'') ← decide_loop cs p v' e'
    some (v'', c' ∷ cs', e'')

  -- decide: chain 0 is the default chain, asked only if no other chain processed the packet.
  unfoldable pub decide : List (Chain x) → PacketInfo → Env → Option (Action × List (Chain x) × Env)
  unfolding decide_loop
  decide [] p e = some (accept, [], e)
  decide (c ∷ cs) p e = do
    (v, cs', e') ← decide_loop cs p unprocessed e
    if v.processed
        then some (settle v.action, c ∷ cs', e')
        else do (w, c', e'') ← chain_decide c p true e'; some (settle w.action, c' ∷ cs', e'')

  -- ip_noise_arbitrator_packet_logic_decide_what_to_do_with_packet, for a packet whose payload is
  -- the list of bytes.
  unfoldable pub decide_packet : Data x → List ℕ → Env → Option (Action × Data x × Env)
  unfolding decide
  decide_packet d [] e = some (accept, d, e)
  decide_packet d payload e = do
    p ← get_packet_info payload
    (a, cs, e') ← decide d.chains p e
    some (a, record d { chains = cs }, e')
