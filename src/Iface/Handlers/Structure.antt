-- ===== src/Iface/Handlers/Structure.antt =====
-- The handlers that add chains and states, set the probabilities of the moves between states, and clear
-- all: new_chain, new_state, set_move_probs, clear_all and end_connection.
use mathlib.Core.Option
use Prim.Native.Nat.{max}
use ip_noise.Common.{
  ℕ, zero, suc, ◌+◌, ◌*◌, false, Option, none, some, List, [], ◌∷◌, ◌++◌, map, ◌==◌, if◌then◌else◌,
  length, take, replicate,
}
use ip_noise.Common.Int.{ℤ, pos, negsuc, ltb_ℤ, int_or_fault}
use ip_noise.Iface.Handlers.Access.{Reply, ok_reply, out_of_range, put_chain, with_chain}
use ip_noise.Iface.Handlers.Moves.{set_rows}
use ip_noise.Iface.Monad.{M, ◌>>=◌, ◌>>◌, pure, get, put, or_fault}
use ip_noise.Iface.Read.{read_state, read_prob}
use ip_noise.Model.{Externals, State, Chain}
use ip_noise.Model.Alloc.{id_len, strncpy, zero_prob, one_prob, chain_alloc, state_alloc, clear_all}

-- The growth of an array of capacity `max` that holds `num` entries.
unfoldable pub grown : ℕ → ℕ → ℕ
grown num max = if num == max then max + 16 else max

module _ (x : Externals) where
  unfoldable pub new_chain : List ℕ → M x Reply
  unfolding grown chain_alloc
  new_chain name = do
    s ← get
    let d = s.data_copy
    let index = length d.chains
    put (record s {
      data_copy = record {
        max_num_chains = grown index d.max_num_chains;
        chains = d.chains ++ chain_alloc x name ∷ [];
        chain_names = x.add_name d.chain_names (strncpy id_len name) index;
      };
      last_chain = pos index;
      last_state = some (negsuc 0);
    })
    pure (record { code = 0; out = some index })

  -- `move_tos` of an old state, when a state is added: one more entry, of probability 0.
  unfoldable pub extend_moves : ℕ → State x → State x
  extend_moves n s = record s { move_tos = take n s.move_tos ++ zero_prob x ∷ [] }

  -- The chain with one more state, which moves only to itself.
  unfoldable pub add_state : List ℕ → Chain x → Chain x
  unfolding extend_moves grown state_alloc
  add_state name c =
      let index = length c.states in
      record c {
        max_num_states = grown index c.max_num_states;
        states =
            map (extend_moves index) c.states
            ++ state_alloc x name (replicate index (zero_prob x) ++ one_prob x ∷ []) ∷ [];
        state_names = x.add_name c.state_names (strncpy id_len name) index;
      }

  unfoldable pub new_state : ℤ → List ℕ → M x Reply
  unfolding with_chain put_chain add_state
  new_state i name = with_chain x i λ c. do
    put_chain x i (add_state name c)
    s ← get
    put (record s { last_state = some (pos (length c.states)) })
    pure (record { code = 0; out = some (length c.states) })

  -- The loops that read the sources and the destinations: `none` is an index out of range, at which
  -- the handler returns at once.
  unfoldable pub read_states : ℕ → ℕ → M x (Option (List ℤ))
  unfolding read_state
  read_states num zero = pure (some [])
  read_states num (suc n) = do
    i ← read_state x
    let rest : M x (Option (List ℤ)) =
        (read_states num n >>= λ r. pure (Option.map (λ is. i ∷ is) r))
    if ltb_ℤ i (pos num) then rest else pure none

  unfoldable pub read_row : ℕ → M x (List x.Double)
  unfolding read_prob
  read_row zero = pure []
  read_row (suc n) = do p ← read_prob x; ps ← read_row n; pure (p ∷ ps)

  unfoldable pub read_rows : ℕ → ℕ → M x (List (List x.Double))
  unfolding read_row
  read_rows zero m = pure []
  read_rows (suc n) m = do row ← read_row m; rows ← read_rows n m; pure (row ∷ rows)

  -- The part of set_move_probs behind the reading of the sources, and of the destinations. The array of
  -- the probabilities has `num_sources * num_dests` entries, an `int`.
  unfoldable pub write_moves : ℤ → Chain x → List ℤ → List ℤ → M x Reply
  unfolding read_rows set_rows put_chain
  write_moves i c sources dests = do
    entries ← or_fault (int_or_fault (pos (length sources * length dests)))
    rows ← read_rows (length sources) (length dests)
    states ← or_fault (set_rows c.states sources dests rows)
    put_chain x i (record c { states = states })
    pure ok_reply

  unfoldable pub with_dests : ℤ → Chain x → ℕ → List ℤ → M x Reply
  unfolding read_states write_moves
  with_dests i c num_dests sources = do
    found ← read_states (length c.states) num_dests
    elim found [ none ↦ pure out_of_range | some dests ↦ write_moves i c sources dests ]

  unfoldable pub set_move_probs : ℤ → ℕ → ℕ → M x Reply
  unfolding with_chain read_states with_dests
  set_move_probs i num_sources num_dests = with_chain x i λ c. do
    found ← read_states (length c.states) num_sources
    elim found [ none ↦ pure out_of_range | some sources ↦ with_dests i c num_dests sources ]

  unfoldable pub handle_clear_all : M x Reply
  unfolding clear_all
  handle_clear_all = do
    s ← get
    put (record s { data_copy = clear_all x s.data_copy })
    pure ok_reply

  unfoldable pub end_connection : M x Reply
  end_connection = do s ← get; put (record s { continue = false }); pure ok_reply
