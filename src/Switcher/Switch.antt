-- ===== src/Switcher/Switch.antt =====
-- A chain moves to one of its states, and gets its next event.
use ip_noise.Common.{
  ℕ, zero, suc, ◌+◌, ◌*◌, ◌^◌, ◌≤◌, ◌<◌, ◌≡◌, refl, inl, inr, Option, none, some, List, [], ◌∷◌,
  arith, Bool-cases, length, get_elem?, set, get_elem?-defined,
}
use ip_noise.Common.Int.{pos}
use ip_noise.Delayer.Order.{NotAfter}
use ip_noise.Iface.Sound.{AllOf, ChainFits, AllOf-get}
use ip_noise.Model.{Externals, Timeval, State, Chain, Env, now, after_now, after_rand, rand_in_0_1}
use ip_noise.Packet.Decide.{current}
use ip_noise.Switcher.{
  Switcher, choose_state, switch_chain, delay_of, calc_chain_delay, get_new_switch_event,
}
use ip_noise.Time.Laws.{add_delay_later}

-- A time of the list that gettimeofday gives is not after the next one.
abbrev pub Forward : Env → Type 0
Forward env = (i : ℕ) → NotAfter (env.times i) (env.times (i + 1))

-- The chosen state, if there is one, is below `n`.
abbrev Below : ℕ → Option ℕ → Type 0
Below n none = Unit
Below n (some k) = k < n

choose_state-Below :
    (x : Externals) (prob sum : x.Double) (moves : List x.Double) (left i n : ℕ)
    → left ≤ length moves
    → i + left ≤ n
    → (r : Option ℕ) × (choose_state x prob sum moves left i ≡ some r) × Below n r
unfolding choose_state
choose_state-Below x prob sum moves zero i n l m = (none, refl, tt)
choose_state-Below x prob sum [] (suc left) i n l m = absurd (omega arith)
choose_state-Below x prob sum (p ∷ moves) (suc left) i n l m =
    elim (Bool-cases (x.lt prob (x.add sum p))) [
      | inl h ↦ (some i, rw h refl, omega arith)
      | inr h ↦
          rw h (
            choose_state-Below x prob (x.add sum p) moves left (i + 1) n (omega arith)
              (omega arith))
    ]

module _ {x : Externals} where
  -- The delays that are drawn for the state are not negative, and fit an `int` in microseconds.
  abbrev pub Bounded : State x → Type 0
  Bounded state = (env : Env) → (n : ℕ) × (delay_of x state env ≡ pos n) × (n * 1000 < 2 ^ 31)

  -- The name of the chain is set.
  abbrev pub Named : Chain x → Type 0
  Named c = (name : List ℕ) × (c.name ≡ some name)

  -- A chain that the switcher can work on.
  pub record Runs (c : Chain x) : Type 0 where
    pub fits : ChainFits x c
    pub current : ℕ
    pub current_is : c.current_state ≡ some current
    pub inside : current < length c.states
    pub delays : AllOf Bounded c.states
    pub named : Named c

  pub Runs-move :
      (c : Chain x) (k : ℕ)
      → Runs c
      → k < length c.states
      → Runs (record c { current_state = some k })
  Runs-move c k v l = record {
    fits = record {
      capacity = v.fits.capacity;
      moves = v.fits.moves;
      protocols = v.fits.protocols;
      tos = v.fits.tos;
    };
    current = k;
    current_is = refl;
    inside = l;
    delays = v.delays;
    named = v.named;
  }

  moved : Chain x → Option ℕ → Chain x
  moved c none = c
  moved c (some k) = record c { current_state = some k }

  moved-Runs : (c : Chain x) (r : Option ℕ) → Runs c → Below (length c.states) r → Runs (moved c r)
  unfolding moved
  moved-Runs c none v l = v
  moved-Runs c (some k) v l = Runs-move c k v l

  -- The current state of a chain.
  state_of :
      (c : Chain x)
      → Runs c
      → (state : State x) × (current x c ≡ some state)
        × Bounded state
        × (length state.move_tos ≡ length c.states)
  unfolding current
  state_of c v =
      let (state, e) = get_elem?-defined c.states v.current v.inside in
      (
        state,
        rw (v.current_is, e) refl,
        AllOf-get Bounded c.states v.current v.delays e,
        AllOf-get (λ (s : State x). length s.move_tos ≡ length c.states) c.states v.current
            v.fits.moves e,
      )

  switch_run :
      (s : Switcher x) (i : ℕ) {c : Chain x} {state : State x} (r : Option ℕ)
      → Named c
      → get_elem? s.chains i ≡ some c
      → current x c ≡ some state
      → choose_state x (rand_in_0_1 x s.env) (x.of_int (pos 0)) state.move_tos (length c.states) 0
        ≡ some r
      → switch_chain x i s
        ≡ some (record s { chains = set s.chains i (moved c r); env = after_rand s.env })
  unfolding switch_chain moved
  switch_run s i none n h e p = rw (h, e, p) refl
  switch_run s i (some k) n h e p = rw (h, e, p, n.1) refl

  pub switch_chain-Runs :
      (s : Switcher x) (i : ℕ) {c : Chain x}
      → get_elem? s.chains i ≡ some c
      → Runs c
      → (d : Chain x) × (switch_chain x i s
          ≡ some (record s { chains = set s.chains i d; env = after_rand s.env }))
        × Runs d
  switch_chain-Runs s i {c} h v =
      let (state, e, b, l) = state_of c v in
      let (r, p, w) =
        choose_state-Below x (rand_in_0_1 x s.env) (x.of_int (pos 0)) state.move_tos
          (length c.states) 0 (length c.states) (omega (arith, l)) (omega arith) in
      (moved c r, switch_run s i r v.named h e p, moved-Runs c r v w)

  -- The event of a chain that runs is not before the time at which it is made.
  pub get_new_switch_event_later :
      (s : Switcher x) (i : ℕ) {c : Chain x}
      → get_elem? s.chains i ≡ some c
      → Runs c
      → (t : Timeval) × (get_new_switch_event x i s
          ≡ some (record { tv = t; chain = i }, record s { env = after_rand (after_now s.env) }))
        × NotAfter (now s.env) t
  unfolding get_new_switch_event calc_chain_delay
  get_new_switch_event_later s i {c} h v =
      let (state, e, b, l) = state_of c v in
      let (n, d, m) = b (after_now s.env) in
      let (t, a, w) = add_delay_later (now s.env) n m in (t, rw (h, e, d, a) refl, w)

  -- The delay that is drawn for a chain that runs fits an int in microseconds.
  pub calc_chain_delay_fits :
      (s : Switcher x) (i : ℕ) {c : Chain x}
      → get_elem? s.chains i ≡ some c
      → Runs c
      → (n : ℕ) × (calc_chain_delay x i s ≡ some (pos n, record s { env = after_rand s.env }))
        × (n * 1000 < 2 ^ 31)
  unfolding calc_chain_delay
  calc_chain_delay_fits s i {c} h v =
      let (state, e, b, l) = state_of c v in let (n, d, m) = b s.env in (n, rw (h, e, d) refl, m)
