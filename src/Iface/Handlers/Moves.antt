-- ===== src/Iface/Handlers/Moves.antt =====
-- The loops of set_move_probs of C/arbitrator/iface_handlers.c that write the probabilities.
use ip_noise.Common.{Option, none, some, List, [], ◌∷◌, get_elem?, set}
use ip_noise.Common.Fault.{◌>>=◌}
use ip_noise.Common.Int.{ℤ, pos}
use ip_noise.Model.{Externals, State}

-- `chain->states[source]->move_tos[dest].comulative_prob = p;`. An index outside of its array faults.
unfoldable pub set_move :
    {x : Externals} → List (State x) → ℤ → ℤ → x.Double → Option (List (State x))
set_move states (pos s) (pos d) p = do
  st ← get_elem? states s
  _ ← get_elem? st.move_tos d
  some (set states s (record st { move_tos = set st.move_tos d p }))
set_move states s d p = none

-- The row of one source.
unfoldable pub set_row :
    {x : Externals} → List (State x) → ℤ → List ℤ → List x.Double → Option (List (State x))
unfolding set_move
set_row states s [] ps = some states
set_row states s (d ∷ ds) [] = none
set_row states s (d ∷ ds) (p ∷ ps) = do next ← set_move states s d p; set_row next s ds ps

-- The two loops that write.
unfoldable pub set_rows :
    {x : Externals}
    → List (State x)
    → List ℤ
    → List ℤ
    → List (List x.Double)
    → Option (List (State x))
unfolding set_row
set_rows states [] ds rows = some states
set_rows states (s ∷ ss) ds [] = none
set_rows states (s ∷ ss) ds (row ∷ rows) = do
  next ← set_row states s ds row
  set_rows next ss ds rows
