-- ===== src/Iface/Handlers/Access.antt =====
-- get_chain and get_state of C/arbitrator/iface.c, and what a handler returns.
use ip_noise.Common.{ℕ, Option, none, some, List, get_elem?, set}
use ip_noise.Common.Int.{ℤ, pos, negsuc, pos_part}
use ip_noise.Iface.Monad.{M, ◌>>=◌, ◌>>◌, pure, get, put, or_fault}
use ip_noise.Model.{Externals, ChainFilter, State, Chain}

-- The code that a handler returns, and `out_params[0]._int`, `none` where it is not set.
pub record Reply : Type 0 where
  pub code : ℕ
  pub out : Option ℕ

abbrev pub ok_reply : Reply
ok_reply = record { code = 0; out = none }

-- IP_NOISE_RET_VALUE_INDEX_OUT_OF_RANGE
abbrev pub out_of_range : Reply
out_of_range = record { code = 3; out = none }

-- IP_NOISE_RET_VALUE_SPLIT_LINEAR_SET_POINTS_ON_OTHER_TYPE
abbrev pub other_type : Reply
other_type = record { code = 4; out = none }

-- An entry of an array of `list`, guarded by `index >= num` alone: NULL is `some none`, and a negative
-- index, which passes the guard, reads before the array.
unfoldable pub guarded_get {ℓ} : {A : Type ℓ} → List A → ℤ → Option (Option A)
guarded_get list (pos i) = some (get_elem? list i)
guarded_get list (negsuc i) = none

-- The index as a number, once it is known to be in range.
abbrev pub index_of : ℤ → ℕ
index_of = pos_part

module _ (x : Externals) where
  unfoldable pub get_chain : ℤ → M x (Option (Chain x))
  unfolding guarded_get
  get_chain i = do s ← get; or_fault (guarded_get s.data_copy.chains i)

  -- A change of `data->chains[i]`.
  unfoldable pub put_chain : ℤ → Chain x → M x (Unit {0})
  put_chain i c = do
    s ← get
    put (record s {
      data_copy = record s.data_copy { chains = set s.data_copy.chains (index_of i) c };
    })

  -- `chain = get_chain(...)`, the return of IP_NOISE_RET_VALUE_INDEX_OUT_OF_RANGE if it is NULL, and
  -- the rest of the handler.
  unfoldable pub with_chain : ℤ → (Chain x → M x Reply) → M x Reply
  unfolding get_chain
  with_chain i rest = do
    found ← get_chain i
    elim found [ none ↦ pure out_of_range | some c ↦ rest c ]

  -- The same for `state = get_state(...)`.
  unfoldable pub with_state : ℤ → ℤ → (Chain x → State x → M x Reply) → M x Reply
  unfolding with_chain guarded_get
  with_state i j rest = with_chain i λ c. do
    found ← or_fault (guarded_get c.states j)
    elim found [ none ↦ pure out_of_range | some s ↦ rest c s ]

  -- A handler that changes a chain and returns 0.
  unfoldable pub change_chain : ℤ → (Chain x → Chain x) → M x Reply
  unfolding with_chain put_chain
  change_chain i f = with_chain i λ c. do put_chain i (f c); pure ok_reply

  -- A handler that changes the filter of a chain and returns 0.
  unfoldable pub change_filter : ℤ → (ChainFilter → ChainFilter) → M x Reply
  unfolding change_chain
  change_filter i f = change_chain i λ c. record c { filter = f c.filter }

  -- A change of `chain->states[j]`.
  unfoldable pub put_state : ℤ → ℤ → Chain x → State x → M x (Unit {0})
  unfolding put_chain
  put_state i j c s = put_chain i (record c { states = set c.states (index_of j) s })

  -- A handler that changes a state and returns 0.
  unfoldable pub change_state : ℤ → ℤ → (State x → State x) → M x Reply
  unfolding with_state put_state
  change_state i j f = with_state i j λ c s. do put_state i j c (f s); pure ok_reply
