-- ===== src/Iface/Sound/Handlers.antt =====
-- Every handler of C/arbitrator/iface_handlers.c keeps the state of the interface well formed.
use ip_noise.Iface.Handlers.Structure
use ip_noise.Iface.Handlers.Filters
use ip_noise.Iface.Handlers.States
use ip_noise.Common.{ℕ, ◌*◌, refl, ◌∙◌, Bool, List, [], ◌∷◌, arith, length, length-append}
use ip_noise.Common.Int.{ℤ, pos, int_or_fault}
use ip_noise.Iface.Handlers.Access.{Reply, ok_reply, out_of_range, other_type, change_filter}
use ip_noise.Iface.Handlers.Moves.{set_rows}
use ip_noise.Iface.Handlers.Structure.{add_state, write_moves, with_dests, handle_clear_all}
use ip_noise.Iface.Monad.{M}
use ip_noise.Iface.Operations.{Handler, call}
use ip_noise.Iface.Read.{Param}
use ip_noise.Iface.Sound.{IsMask, ChainFits, AllOf-append}
use ip_noise.Iface.Sound.Keeps.{
  Keeps, Keeps-stop, Keeps-pure, Keeps-or_fault, Reads-Keeps, Keeps-bind, Keeps-value, Keeps-elim,
  with_chain-Keeps, with_state-Keeps, put_chain-Keeps, change_chain-Keeps, put_state-Keeps,
  change_state-Keeps,
}
use ip_noise.Iface.Sound.Moves.{
  set_rows-Shape, grown-fits, chain_alloc-ChainFits, add_state-ChainFits,
}
use ip_noise.Iface.Transact.Rollback.{Reads-read_states, Reads-read_rows}
use ip_noise.Mask.{change_mask}
use ip_noise.Mask.Laws.{change_mask-AllBytes}
use ip_noise.Model.{Externals, ChainFilter, DelayType, no_delay, exp, split_linear, Chain}
use ip_noise.Model.Alloc.{chain_alloc, clear_all}

module _ (x : Externals) where
  change_filter-Keeps :
      (i : ℤ) (f : ChainFilter → ChainFilter)
      → ((c : ChainFilter) → IsMask 32 c.protocols → IsMask 32 (f c).protocols)
      → ((c : ChainFilter) → IsMask 8 c.tos → IsMask 8 (f c).tos)
      → Keeps (change_filter x i f)
  unfolding change_filter
  change_filter-Keeps i f hp ht = change_chain-Keeps x i _ λ c v. record {
    capacity = v.capacity;
    moves = v.moves;
    protocols = hp c.filter v.protocols;
    tos = ht c.filter v.tos;
  }

  change_mask-IsMask :
      (n : ℕ) (mask : List ℕ) (index : ℕ) (enable : Bool)
      → IsMask n mask
      → IsMask n (change_mask mask index enable)
  change_mask-IsMask n mask index enable h =
      let (b, l) = change_mask-AllBytes mask index enable h.bytes in
      record { size = l ∙ h.size; bytes = b }

  if_type-Keeps :
      (t : DelayType) {m n o : M x Reply}
      → Keeps m
      → Keeps n
      → Keeps o
      → Keeps (elim t [ split_linear ↦ m | no_delay ↦ n | exp ↦ o ])
  if_type-Keeps split_linear p q r = p
  if_type-Keeps no_delay p q r = q
  if_type-Keeps exp p q r = r

  new_chain-Keeps : (name : List ℕ) → Keeps (Structure.new_chain x name)
  unfolding Structure.new_chain
  new_chain-Keeps name = record {
    kept = λ s v.
        let cs = s.data_copy.chains in
        let c = chain_alloc x name in
        record {
          input = v.input;
          output = v.output;
          data_copy = record {
            capacity =
                let l = length-append cs (c ∷ []) in
                let g = grown-fits (length cs) s.data_copy.max_num_chains v.data_copy.capacity in
                omega (arith, l, g);
            chains =
                AllOf-append (ChainFits x) cs (c ∷ []) v.data_copy.chains
                  (chain_alloc-ChainFits x name, tt);
          };
        };
  }

  new_state-Keeps : (i : ℤ) (name : List ℕ) → Keeps (Structure.new_state x i name)
  unfolding Structure.new_state
  new_state-Keeps i name = with_chain-Keeps x i λ c f.
      let added = put_chain-Keeps x i (add_state x name c) (add_state-ChainFits x name c f) in
      record {
        kept = λ s v.
            let w = added.kept s v in
            record { input = w.input; output = w.output; data_copy = w.data_copy };
      }

  write_moves-Keeps :
      (i : ℤ) (c : Chain x) (sources dests : List ℤ)
      → ChainFits x c
      → Keeps (write_moves x i c sources dests)
  unfolding write_moves
  write_moves-Keeps i c sources dests f =
      Keeps-bind (Keeps-or_fault (int_or_fault (pos (length sources * length dests)))) λ entries.
        Keeps-bind (Reads-Keeps (Reads-read_rows x (length sources) (length dests))) λ rows.
          Keeps-value (set_rows c.states sources dests rows) λ states e.
            let (l, moves) =
              set_rows-Shape (length c.states) c.states sources dests rows (refl, f.moves) e in
            Keeps-bind
              (put_chain-Keeps x i (record c { states = states })
                (record {
                  capacity = rw l f.capacity;
                  moves = rw l moves;
                  protocols = f.protocols;
                  tos = f.tos;
                }))
              λ u. Keeps-pure ok_reply

  with_dests-Keeps :
      (i : ℤ) (c : Chain x) (n : ℕ) (sources : List ℤ)
      → ChainFits x c
      → Keeps (with_dests x i c n sources)
  unfolding with_dests
  with_dests-Keeps i c n sources f =
      Keeps-bind (Reads-Keeps (Reads-read_states x (length c.states) n)) λ found.
        Keeps-elim found (Keeps-pure out_of_range) λ dests e. write_moves-Keeps i c sources dests f

  set_move_probs-Keeps : (i : ℤ) (n m : ℕ) → Keeps (Structure.set_move_probs x i n m)
  unfolding Structure.set_move_probs
  set_move_probs-Keeps i n m = with_chain-Keeps x i λ c f.
      Keeps-bind (Reads-Keeps (Reads-read_states x (length c.states) n)) λ found.
        Keeps-elim found (Keeps-pure out_of_range) λ sources e. with_dests-Keeps i c m sources f

  clear_all-Keeps : Keeps (Structure.handle_clear_all x)
  unfolding Structure.handle_clear_all clear_all
  clear_all-Keeps = record {
    kept = λ s v. record {
      input = v.input;
      output = v.output;
      data_copy = record { capacity = omega arith; chains = tt };
    };
  }

  end_connection-Keeps : Keeps (Structure.end_connection x)
  unfolding Structure.end_connection
  end_connection-Keeps = record {
    kept = λ s v. record { input = v.input; output = v.output; data_copy = v.data_copy };
  }

  pub call-Keeps : (h : Handler) (ps : List (Param x)) → Keeps (call x h ps)
  unfolding call Filters.set_source Filters.set_dest Filters.set_protocol Filters.set_tos
      Filters.set_length_min Filters.set_length_max Filters.set_which_length
      States.set_drop_delay_prob States.set_delay_type States.set_time_factor
      States.set_stable_delay_prob States.set_split_linear_points States.set_lambda
  call-Keeps Handler.new_chain (Param.string name ∷ []) = new_chain-Keeps name
  call-Keeps Handler.new_state (Param.chain i ∷ Param.string name ∷ []) = new_state-Keeps i name
  call-Keeps Handler.set_move_probs (Param.chain i ∷ Param.int n ∷ Param.int m ∷ []) =
      set_move_probs-Keeps i n m
  call-Keeps Handler.set_source (Param.chain i ∷ Param.ip_filter f ∷ []) =
      change_filter-Keeps i _ (λ c h. h) (λ c h. h)
  call-Keeps Handler.set_dest (Param.chain i ∷ Param.ip_filter f ∷ []) =
      change_filter-Keeps i _ (λ c h. h) (λ c h. h)
  call-Keeps Handler.set_protocol (Param.chain i ∷ Param.int n ∷ Param.bool b ∷ []) =
      change_filter-Keeps i _ (λ c h. change_mask-IsMask 32 c.protocols n b h) (λ c h. h)
  call-Keeps Handler.set_tos (Param.chain i ∷ Param.int n ∷ Param.bool b ∷ []) =
      change_filter-Keeps i _ (λ c h. h) (λ c h. change_mask-IsMask 8 c.tos n b h)
  call-Keeps Handler.set_length_min (Param.chain i ∷ Param.int n ∷ []) =
      change_filter-Keeps i _ (λ c h. h) (λ c h. h)
  call-Keeps Handler.set_length_max (Param.chain i ∷ Param.int n ∷ []) =
      change_filter-Keeps i _ (λ c h. h) (λ c h. h)
  call-Keeps Handler.set_which_length (Param.chain i ∷ Param.which_packet_length w ∷ []) =
      change_filter-Keeps i _ (λ c h. h) (λ c h. h)
  call-Keeps Handler.set_drop_delay_prob
        (Param.chain i ∷ Param.state j ∷ Param.prob p ∷ Param.prob q ∷ []) =
      change_state-Keeps x i j _ λ s. refl
  call-Keeps Handler.set_delay_type
        (Param.chain i ∷ Param.state j ∷ Param.delay_function_type t ∷ []) =
      change_state-Keeps x i j _ λ s. refl
  call-Keeps Handler.set_split_linear_points
        (Param.chain i ∷ Param.state j ∷ Param.split_linear_points ps ∷ []) =
      with_state-Keeps x i j λ c s f e.
        if_type-Keeps s.delay_type (put_state-Keeps x i j c _ f e) (Keeps-pure other_type)
          (Keeps-pure other_type)
  call-Keeps Handler.set_lambda (Param.chain i ∷ Param.state j ∷ Param.lambda_value l ∷ []) =
      with_state-Keeps x i j λ c s f e.
        if_type-Keeps s.delay_type (Keeps-pure other_type) (Keeps-pure other_type)
          (put_state-Keeps x i j c _ f e)
  call-Keeps Handler.set_time_factor (Param.chain i ∷ Param.state j ∷ Param.delay_value d ∷ []) =
      change_state-Keeps x i j _ λ s. refl
  call-Keeps Handler.set_stable_delay_prob (Param.chain i ∷ Param.state j ∷ Param.prob p ∷ []) =
      change_state-Keeps x i j _ λ s. refl
  call-Keeps Handler.clear_all [] = clear_all-Keeps
  call-Keeps Handler.end_connection [] = end_connection-Keeps
  call-Keeps _ _ = Keeps-stop _
