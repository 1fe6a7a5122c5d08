-- ===== src/Iface/Transact/Rollback.antt =====
-- A transaction whose input ends early is rolled back whole.
use ip_noise.Iface.Handlers.Structure
use ip_noise.Iface.Handlers.Filters
use ip_noise.Iface.Handlers.States
use mathlib.Core.Path.{subst}
use ip_noise.Common.{ℕ, zero, suc, ◌*◌, ◌≡◌, ap, Option, List, [], ◌∷◌, length}
use ip_noise.Common.Int.{ℤ, pos, ltb_ℤ, int_or_fault}
use ip_noise.Iface.Handlers.Access.{Reply, ok_reply, out_of_range, other_type, put_chain}
use ip_noise.Iface.Handlers.Moves.{set_rows}
use ip_noise.Iface.Handlers.Structure.{
  read_states, read_row, read_rows, write_moves, with_dests, handle_clear_all,
}
use ip_noise.Iface.Monad.{Iface, Outcome, done, failed, M}
use ip_noise.Iface.Operations.{Handler, Operation, find_operation, call}
use ip_noise.Iface.Read.{Param, ParamType}
use ip_noise.Iface.Transact.{
  write_int, out_value, write_outs, read_params, read_commit, run_operation, transaction,
  handle_error, after_error, transact,
}
use ip_noise.Iface.Transact.Atomic.{
  IsAtomic, Never, Never-IsAtomic, Never-pure, Never-or_fault, Never-bind, IsAtomic-bind,
  IsAtomic-last, IsAtomic-elim, reply-IsAtomic, with_chain-IsAtomic, with_state-IsAtomic,
  put_chain-Never, change_filter-IsAtomic, put_state-reply-Never, change_state-IsAtomic,
}
use ip_noise.Iface.Transact.ReadOnly.{
  text, OnlyRead, Reads, Reads-pure, Reads-or_fault, Reads-bind, Reads-if, holds_itself,
  Reads-read_int, Reads-read_state, Reads-read_prob, Reads-read_param_type,
}
use ip_noise.Model.{Externals, DelayType, no_delay, exp, split_linear, Point, Chain}
use ip_noise.TextQueue.In.{not_fully, TextQueueIn, rollback}
use ip_noise.TextQueue.In.Laws.{IsValid, Holds, rollback-Holds}

module _ (x : Externals) where
  pub Reads-read_states : (num n : ℕ) → Reads (read_states x num n)
  unfolding read_states
  Reads-read_states num zero = Reads-pure _
  Reads-read_states num (suc n) = Reads-bind (Reads-read_state x) λ i.
      Reads-if (ltb_ℤ i (pos num)) (Reads-bind (Reads-read_states num n) λ r. Reads-pure _)
        (Reads-pure _)

  Reads-read_row : (n : ℕ) → Reads (read_row x n)
  unfolding read_row
  Reads-read_row zero = Reads-pure _
  Reads-read_row (suc n) =
      Reads-bind (Reads-read_prob x) λ p. Reads-bind (Reads-read_row n) λ ps. Reads-pure _

  pub Reads-read_rows : (n m : ℕ) → Reads (read_rows x n m)
  unfolding read_rows
  Reads-read_rows zero m = Reads-pure _
  Reads-read_rows (suc n) m =
      Reads-bind (Reads-read_row m) λ row. Reads-bind (Reads-read_rows n m) λ rows. Reads-pure _

  write_moves-IsAtomic :
      (i : ℤ) (c : Chain x) (sources dests : List ℤ) → IsAtomic (write_moves x i c sources dests)
  unfolding write_moves
  write_moves-IsAtomic i c sources dests =
      IsAtomic-bind (Reads-or_fault (int_or_fault (pos (length sources * length dests)))) λ entries.
        IsAtomic-bind (Reads-read_rows (length sources) (length dests)) λ rows. Never-IsAtomic (
          Never-bind (Never-or_fault (set_rows c.states sources dests rows)) λ states.
            Never-bind (put_chain-Never x i (record c { states = states }))
              λ u. Never-pure ok_reply)

  with_dests-IsAtomic :
      (i : ℤ) (c : Chain x) (n : ℕ) (sources : List ℤ) → IsAtomic (with_dests x i c n sources)
  unfolding with_dests
  with_dests-IsAtomic i c n sources = IsAtomic-bind (Reads-read_states _ n) λ found.
      IsAtomic-elim found (reply-IsAtomic x out_of_range)
        λ dests. write_moves-IsAtomic i c sources dests

  set_move_probs-IsAtomic : (i : ℤ) (n m : ℕ) → IsAtomic (Structure.set_move_probs x i n m)
  unfolding Structure.set_move_probs
  set_move_probs-IsAtomic i n m = with_chain-IsAtomic x i λ c.
      IsAtomic-bind (Reads-read_states _ n) λ found.
        IsAtomic-elim found (reply-IsAtomic x out_of_range)
          λ sources. with_dests-IsAtomic i c m sources

  new_chain-IsAtomic : (name : List ℕ) → IsAtomic (Structure.new_chain x name)
  unfolding Structure.new_chain
  new_chain-IsAtomic name = Never-IsAtomic (record { quiet = λ s e h. cc })

  new_state-IsAtomic : (i : ℤ) (name : List ℕ) → IsAtomic (Structure.new_state x i name)
  unfolding Structure.new_state put_chain
  new_state-IsAtomic i name =
      with_chain-IsAtomic x i λ c. Never-IsAtomic (record { quiet = λ s e h. cc })

  if_type-IsAtomic :
      (t : DelayType) {m n o : M x Reply}
      → IsAtomic m
      → IsAtomic n
      → IsAtomic o
      → IsAtomic (elim t [ split_linear ↦ m | no_delay ↦ n | exp ↦ o ])
  if_type-IsAtomic split_linear p q r = p
  if_type-IsAtomic no_delay p q r = q
  if_type-IsAtomic exp p q r = r

  set_split_linear_points-IsAtomic :
      (i j : ℤ) (ps : List (Point x)) → IsAtomic (States.set_split_linear_points x i j ps)
  unfolding States.set_split_linear_points
  set_split_linear_points-IsAtomic i j ps = with_state-IsAtomic x i j λ c s.
      if_type-IsAtomic s.delay_type (Never-IsAtomic (put_state-reply-Never x i j c _))
        (reply-IsAtomic x other_type) (reply-IsAtomic x other_type)

  set_lambda-IsAtomic : (i j : ℤ) (l : ℕ) → IsAtomic (States.set_lambda x i j l)
  unfolding States.set_lambda
  set_lambda-IsAtomic i j l = with_state-IsAtomic x i j λ c s.
      if_type-IsAtomic s.delay_type (reply-IsAtomic x other_type) (reply-IsAtomic x other_type)
        (Never-IsAtomic (put_state-reply-Never x i j c _))

  call-IsAtomic : (h : Handler) (ps : List (Param x)) → IsAtomic (call x h ps)
  unfolding call Structure.handle_clear_all Structure.end_connection Filters.set_source
      Filters.set_dest Filters.set_protocol Filters.set_tos Filters.set_length_min
      Filters.set_length_max Filters.set_which_length States.set_drop_delay_prob
      States.set_delay_type States.set_time_factor States.set_stable_delay_prob
  call-IsAtomic Handler.new_chain (Param.string name ∷ []) = new_chain-IsAtomic name
  call-IsAtomic Handler.new_state (Param.chain i ∷ Param.string name ∷ []) =
      new_state-IsAtomic i name
  call-IsAtomic Handler.set_move_probs (Param.chain i ∷ Param.int n ∷ Param.int m ∷ []) =
      set_move_probs-IsAtomic i n m
  call-IsAtomic Handler.set_source (Param.chain i ∷ Param.ip_filter f ∷ []) =
      change_filter-IsAtomic x i _
  call-IsAtomic Handler.set_dest (Param.chain i ∷ Param.ip_filter f ∷ []) =
      change_filter-IsAtomic x i _
  call-IsAtomic Handler.set_protocol (Param.chain i ∷ Param.int n ∷ Param.bool b ∷ []) =
      change_filter-IsAtomic x i _
  call-IsAtomic Handler.set_tos (Param.chain i ∷ Param.int n ∷ Param.bool b ∷ []) =
      change_filter-IsAtomic x i _
  call-IsAtomic Handler.set_length_min (Param.chain i ∷ Param.int n ∷ []) =
      change_filter-IsAtomic x i _
  call-IsAtomic Handler.set_length_max (Param.chain i ∷ Param.int n ∷ []) =
      change_filter-IsAtomic x i _
  call-IsAtomic Handler.set_which_length (Param.chain i ∷ Param.which_packet_length w ∷ []) =
      change_filter-IsAtomic x i _
  call-IsAtomic Handler.set_drop_delay_prob
        (Param.chain i ∷ Param.state j ∷ Param.prob p ∷ Param.prob q ∷ []) =
      change_state-IsAtomic x i j _
  call-IsAtomic Handler.set_delay_type
        (Param.chain i ∷ Param.state j ∷ Param.delay_function_type t ∷ []) =
      change_state-IsAtomic x i j _
  call-IsAtomic Handler.set_split_linear_points
        (Param.chain i ∷ Param.state j ∷ Param.split_linear_points ps ∷ []) =
      set_split_linear_points-IsAtomic i j ps
  call-IsAtomic Handler.set_lambda (Param.chain i ∷ Param.state j ∷ Param.lambda_value l ∷ []) =
      set_lambda-IsAtomic i j l
  call-IsAtomic Handler.set_time_factor (Param.chain i ∷ Param.state j ∷ Param.delay_value d ∷ []) =
      change_state-IsAtomic x i j _
  call-IsAtomic Handler.set_stable_delay_prob (Param.chain i ∷ Param.state j ∷ Param.prob p ∷ []) =
      change_state-IsAtomic x i j _
  call-IsAtomic Handler.clear_all [] = Never-IsAtomic (record { quiet = λ s e h. cc })
  call-IsAtomic Handler.end_connection [] = Never-IsAtomic (record { quiet = λ s e h. cc })
  call-IsAtomic _ _ = Never-IsAtomic (record { quiet = λ s e h. cc })

  pub Reads-read_params : (ts : List ParamType) → Reads (read_params x ts)
  unfolding read_params
  Reads-read_params [] = Reads-pure _
  Reads-read_params (t ∷ ts) =
      Reads-bind (Reads-read_param_type x t)
        λ p. Reads-bind (Reads-read_params ts) λ ps. Reads-pure _

  write_int-Never : (n : ℕ) → Never (write_int x n)
  unfolding write_int
  write_int-Never n = record { quiet = λ s e h. cc }

  read_commit-Never : Never (read_commit x)
  unfolding read_commit
  read_commit-Never = record { quiet = λ s e h. cc }

  write_outs-Never : (n : ℕ) (o : Option ℕ) → Never (write_outs x n o)
  unfolding write_outs
  write_outs-Never zero o = Never-pure tt
  write_outs-Never (suc n) o =
      Never-bind (write_int-Never (out_value x o)) λ u. write_outs-Never n o

  run_operation-IsAtomic : (op : Operation) → IsAtomic (run_operation x op)
  unfolding run_operation
  run_operation-IsAtomic op = IsAtomic-bind (Reads-read_params op.params) λ ps.
      IsAtomic-last (call-IsAtomic op.handler ps) λ r.
        Never-bind (read_commit-Never)
          λ u. Never-bind (write_int-Never r.code) λ v. write_outs-Never op.num_out_params r.out

  pub transaction-IsAtomic : IsAtomic (transaction x)
  unfolding transaction
  transaction-IsAtomic = IsAtomic-bind (Reads-read_int x) λ opcode.
      IsAtomic-bind (Reads-or_fault (find_operation opcode))
        λ found. IsAtomic-elim found (Never-IsAtomic (write_int-Never 2)) run_operation-IsAtomic

  rolled_back :
      (s t : Iface x) (o : Outcome (Unit {0}))
      → o ≡ failed not_fully
      → OnlyRead s t
      → (q : TextQueueIn) × (after_error x o t ≡ (done tt, record s { text_queue_in = q }))
        × Holds q [] (text s.text_queue_in)
  unfolding after_error handle_error
  rolled_back s t o e p = (
    rollback t.text_queue_in,
    rw e (ap (λ r. (done tt, record r { text_queue_in = rollback t.text_queue_in })) p.same_rest),
    subst (Holds (rollback t.text_queue_in) []) p.same_text
        (rollback-Holds t.text_queue_in (holds_itself t p.valid)),
  )

  -- On a valid input queue, a transaction whose reads, those of the opcode, of the parameters or
  -- of the handler, come to too few bytes on an open connection ends normally, and changes nothing
  -- of the interface but the input queue, which is left with its whole text unread: no handler has
  -- changed the data or written output by then.
  pub transact-rolled_back :
      (s : Iface x)
      → IsValid s.text_queue_in
      → (transaction x s).0 ≡ failed not_fully
      → (q : TextQueueIn) × (transact x s ≡ (done tt, record s { text_queue_in = q }))
        × Holds q [] (text s.text_queue_in)
  unfolding transact
  transact-rolled_back s v e =
      rolled_back s (transaction x s).1 (transaction x s).0 e
        (transaction-IsAtomic.safe s not_fully v e)
