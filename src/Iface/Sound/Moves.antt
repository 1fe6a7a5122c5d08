-- ===== src/Iface/Sound/Moves.antt =====
-- The handlers that change the states of a chain keep the chain well formed.
use Prim.Native.Nat.{max}
use mathlib.Core.Path.{subst}
use ip_noise.Common.{
  ℕ, ◌+◌, ◌≤◌, ◌≡◌, ◌∙◌, some, List, [], ◌∷◌, map, arith, length, get_elem?, set, length-append,
  length-set, take, replicate, length-take, length-replicate, length-map,
}
use ip_noise.Common.Fault.{>>=-eq-some}
use ip_noise.Common.Int.{ℤ, pos, negsuc}
use ip_noise.Iface.Handlers.Moves.{set_move, set_row, set_rows}
use ip_noise.Iface.Handlers.Structure.{grown, extend_moves, add_state}
use ip_noise.Iface.Sound.{AllOf, ChainFits, AllOf-get, AllOf-set, AllOf-append, AllOf-map}
use ip_noise.Mask.Laws.{AllBytes-replicate}
use ip_noise.Model.{Externals, State, Chain}
use ip_noise.Model.Alloc.{zero_prob, chain_alloc, state_alloc}

-- The shape of the states of a chain with `n` of them.
abbrev pub Shape : {x : Externals} → ℕ → List (State x) → Type 0
Shape n states = (length states ≡ n) × AllOf (λ s. length s.move_tos ≡ n) states

module _ {x : Externals} where
  set_move-Shape :
      (n : ℕ) (states : List (State x)) (i j : ℤ) (p : x.Double) {next : List (State x)}
      → Shape n states
      → set_move states i j p ≡ some next
      → Shape n next
  unfolding set_move
  set_move-Shape n states (negsuc i) j p h e = cc
  set_move-Shape n states (pos i) (negsuc j) p h e = cc
  set_move-Shape n states (pos i) (pos j) p {next} h e =
      let (st, at, e1) = >>=-eq-some (get_elem? states i) _ e in
      let (q, at', e2) = >>=-eq-some (get_elem? st.move_tos j) _ e1 in
      let changed : State x = record st { move_tos = set st.move_tos j p } in
      let same : set states i changed ≡ next = cc in
      subst (Shape n) same (
        length-set states i changed ∙ h.0,
        AllOf-set (λ s. length s.move_tos ≡ n) states i h.1
            (length-set st.move_tos j p ∙ AllOf-get (λ s. length s.move_tos ≡ n) states i h.1 at),
      )

  set_row-Shape :
      (n : ℕ) (states : List (State x)) (i : ℤ) (ds : List ℤ) (ps : List x.Double)
      {next : List (State x)}
      → Shape n states
      → set_row states i ds ps ≡ some next
      → Shape n next
  unfolding set_row
  set_row-Shape n states i [] ps {next} h e = let q : states ≡ next = cc in subst (Shape n) q h
  set_row-Shape n states i (d ∷ ds) [] h e = cc
  set_row-Shape n states i (d ∷ ds) (p ∷ ps) h e =
      let (mid, e1, e2) = >>=-eq-some (set_move states i d p) _ e in
      set_row-Shape n mid i ds ps (set_move-Shape n states i d p h e1) e2

  pub set_rows-Shape :
      (n : ℕ) (states : List (State x)) (is ds : List ℤ) (rows : List (List x.Double))
      {next : List (State x)}
      → Shape n states
      → set_rows states is ds rows ≡ some next
      → Shape n next
  unfolding set_rows
  set_rows-Shape n states [] ds rows {next} h e = let q : states ≡ next = cc in subst (Shape n) q h
  set_rows-Shape n states (i ∷ is) ds [] h e = cc
  set_rows-Shape n states (i ∷ is) ds (row ∷ rows) h e =
      let (mid, e1, e2) = >>=-eq-some (set_row states i ds row) _ e in
      set_rows-Shape n mid is ds rows (set_row-Shape n states i ds row h e1) e2

pub grown-fits : (num max : ℕ) → num ≤ max → num + 1 ≤ grown num max
unfolding grown
grown-fits num max h = ground arith

module _ (x : Externals) where
  pub chain_alloc-ChainFits : (name : List ℕ) → ChainFits x (chain_alloc x name)
  unfolding chain_alloc
  chain_alloc-ChainFits name = record {
    capacity = omega arith;
    moves = tt;
    protocols = record {
      size = length-replicate {A = ℕ} 32 255;
      bytes = AllBytes-replicate 32 255 (omega arith);
    };
    tos = record {
      size = length-replicate {A = ℕ} 8 255;
      bytes = AllBytes-replicate 8 255 (omega arith);
    };
  }

  pub add_state-ChainFits :
      (name : List ℕ) (c : Chain x) → ChainFits x c → ChainFits x (add_state x name c)
  unfolding add_state extend_moves state_alloc
  add_state-ChainFits name c f =
      let n = length c.states in
      let count : length (add_state x name c).states ≡ n + 1 =
        length-append (map (extend_moves x n) c.states) _
        ∙ omega (arith, length-map c.states (extend_moves x n)) in
      record {
        capacity = rw count (grown-fits n c.max_num_states f.capacity);
        moves = rw count (
            AllOf-append (λ s. length s.move_tos ≡ n + 1) (map (extend_moves x n) c.states) _
              (AllOf-map (λ s. length s.move_tos ≡ n) (λ s. length s.move_tos ≡ n + 1)
                (extend_moves x n) c.states
                (λ s e.
                  length-append (take n s.move_tos) _ ∙ omega (arith, length-take n s.move_tos))
                f.moves)
              (
                length-append (replicate n (zero_prob x)) _
                    ∙ omega (arith, length-replicate n (zero_prob x)),
                tt,
              ));
        protocols = f.protocols;
        tos = f.tos;
      }
