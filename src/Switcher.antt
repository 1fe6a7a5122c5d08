-- ===== src/Switcher.antt =====
-- The switcher of C/arbitrator/switcher.c, in the program's build: a priority queue of the times at
-- which the chains change their states. Of the messages for
-- the user only the name of a chain is kept, which must be set.
pub mod Order
pub mod Reinit
pub mod Count
pub mod Switch
pub mod Handle
pub mod Poll
pub mod Start
pub mod Session
use Prim.Native.Nat.{Ordering}
use ip_noise.Common.{
  ℕ, zero, suc, ◌+◌, Bool, true, false, Option, none, some, List, [], ◌∷◌, if◌then◌else◌, length,
  get_elem?, set,
}
use ip_noise.Common.Fault.{◌>>=◌}
use ip_noise.Common.Int.{ℤ, pos}
use ip_noise.Model.{
  Externals, Timeval, gt, lt, State, Chain, Env, now, after_now, after_rand, rand_in_0_1,
}
use ip_noise.Model.Alloc.{zero_prob}
use ip_noise.PQueue.{PQueue, initialise, is_empty, peek_minimum, push, pop}
use ip_noise.Packet.Decide.{current}
use ip_noise.Packet.Delay.{at_least_delta}
use ip_noise.Time.{add_delay, timeval_cmp}

-- ip_noise_arbitrator_switcher_event_t
pub record Event : Type 0 where
  pub tv : Timeval
  pub chain : ℕ

-- ip_noise_timeval_cmp, on events
unfoldable pub event_cmp : Event → Event → Ordering
unfolding timeval_cmp
event_cmp a b = timeval_cmp a.tv b.tv

-- The queue that ip_noise_arbitrator_switcher_alloc makes, for the contents of the new array.
unfoldable pub switcher_alloc : (ℕ → Event) → PQueue Event
unfolding initialise
switcher_alloc garbage = initialise 30 false garbage

-- The loop of ip_noise_arbitrator_switcher_reinit that empties the queue
unfoldable pub drain : ℕ → PQueue Event → Option (PQueue Event)
unfolding is_empty pop event_cmp
drain zero pq = none
drain (suc fuel) pq =
    let rest : Option (PQueue Event) = (pop event_cmp pq >>= λ r. drain fuel r.1) in
    if is_empty pq then some pq else rest

-- `ip_noise_timeval_cmp (event, &current_time_pseudo_msg) < 0`
unfoldable pub is_over : Event → Timeval → Bool
unfolding timeval_cmp
is_over event current = elim (timeval_cmp event.tv current) [
  | Ordering.lt ↦ true
  | Ordering.eq ↦ false
  | Ordering.gt ↦ false
]

module _ (x : Externals) where
  -- What the switcher works on: its queue, the chains of the data in use, the flag that asks it to start
  -- anew, and what the system gives.
  pub record Switcher : Type 0 where
    pub reinit_switcher : Bool
    pub pq : PQueue Event
    pub chains : List (Chain x)
    pub env : Env

  -- One round of the other loop of ip_noise_arbitrator_switcher_reinit.
  unfoldable pub start_chain : Timeval → ℕ → Switcher → Option Switcher
  unfolding push event_cmp
  start_chain tv i s = do
    c ← get_elem? s.chains i
    r ← push event_cmp s.pq (record { tv = tv; chain = i })
    some (record s { pq = r; chains = set s.chains i (record c { current_state = some 0 }) })

  -- The rounds for `left` chains from index `i` on.
  unfoldable pub start_chains : Timeval → ℕ → ℕ → Switcher → Option Switcher
  unfolding start_chain
  start_chains tv zero i s = some s
  start_chains tv (suc left) i s = start_chain tv i s >>= start_chains tv left (i + 1)

  -- ip_noise_arbitrator_switcher_reinit
  unfoldable pub reinit : Switcher → Option Switcher
  unfolding drain now after_now start_chains
  reinit s = do
    r ← drain (suc s.pq.current_size) s.pq
    start_chains (now s.env) (length s.chains) 0 (record s { pq = r; env = after_now s.env })

  -- The loop of switch_chain over the `left` states from index `i` on, for the sum so far: the new
  -- state, if there is one. A read outside of the array is a fault.
  unfoldable pub choose_state : x.Double → x.Double → List x.Double → ℕ → ℕ → Option (Option ℕ)
  choose_state prob sum moves zero i = some none
  choose_state prob sum [] (suc left) i = none
  choose_state prob sum (p ∷ moves) (suc left) i =
      let rest = choose_state prob (x.add sum p) moves left (i + 1) in
      if x.lt prob (x.add sum p) then some (some i) else rest

  -- switch_chain. Of the message for the user only the name of the chain is kept, which must be set.
  unfoldable pub switch_chain : ℕ → Switcher → Option Switcher
  unfolding current rand_in_0_1 after_rand choose_state
  switch_chain i s = do
    c ← get_elem? s.chains i
    state ← current x c
    let prob = rand_in_0_1 x s.env
    let zero_prob = x.of_int (pos 0)
    chosen ← choose_state prob zero_prob state.move_tos (length c.states) 0
    c' ← elim chosen [
      | none ↦ some c
      | some k ↦ c.name >>= λ name. some (record c { current_state = some k })
    ]
    some (record s { chains = set s.chains i c'; env = after_rand s.env })

  -- The formula of calc_chain_delay, for a state and what the system gives
  unfoldable pub delay_of : State x → Env → ℤ
  unfolding at_least_delta rand_in_0_1
  delay_of state env =
      let prob = at_least_delta x (rand_in_0_1 x env) in
      x.to_int (x.mul (x.neg_log prob) (x.of_int (pos state.time_factor)))

  -- calc_chain_delay
  unfoldable pub calc_chain_delay : ℕ → Switcher → Option (ℤ × Switcher)
  unfolding current delay_of after_rand
  calc_chain_delay i s = do
    c ← get_elem? s.chains i
    state ← current x c
    some (delay_of state s.env, record s { env = after_rand s.env })

  -- get_new_switch_event
  unfoldable pub get_new_switch_event : ℕ → Switcher → Option (Event × Switcher)
  unfolding now after_now calc_chain_delay add_delay
  get_new_switch_event i s = do
    let tv = now s.env
    r ← calc_chain_delay i (record s { env = after_now s.env })
    later ← add_delay tv r.0
    some (record { tv = later; chain = i }, r.1)

  -- The body of the loop of ip_noise_arbitrator_switcher_poll, for an event that is due
  unfoldable pub handle_event : Event → Switcher → Option Switcher
  unfolding pop switch_chain get_new_switch_event push event_cmp
  handle_event event s = do
    r ← pop event_cmp s.pq
    s' ← switch_chain event.chain (record s { pq = r.1 })
    n ← get_new_switch_event event.chain s'
    q ← push event_cmp n.1.pq n.0
    some (record n.1 { pq = q })

  -- The loop of ip_noise_arbitrator_switcher_poll
  unfoldable pub handle_events : ℕ → Timeval → Switcher → Option Switcher
  unfolding is_empty peek_minimum is_over handle_event
  handle_events zero current s = none
  handle_events (suc fuel) current s =
      let test : Option Switcher =
        (peek_minimum s.pq >>= λ first. first >>= λ event.
        let again : Option Switcher = (handle_event event s >>= handle_events fuel current) in
        if is_over event current then again else some s) in
      if is_empty s.pq then some s else test

  -- The first `if` of ip_noise_arbitrator_switcher_poll
  unfoldable pub restart_if_asked : Switcher → Option Switcher
  unfolding reinit
  restart_if_asked s =
      let restarted : Option Switcher =
        (reinit s >>= λ r. some (record r { reinit_switcher = false })) in
      if s.reinit_switcher then restarted else some s

  -- ip_noise_arbitrator_switcher_poll, inside of the lock
  unfoldable pub poll : Switcher → Option Switcher
  unfolding restart_if_asked now after_now handle_events
  poll s = do
    r ← restart_if_asked s
    let current = now r.env
    handle_events (suc r.pq.current_size) current (record r { env = after_now r.env })
