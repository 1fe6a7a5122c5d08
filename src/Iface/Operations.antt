-- ===== src/Iface/Operations.antt =====
-- The table `operations` of C/arbitrator/iface_handlers.c, and the calls of the handlers through it.
pub mod Search
use ip_noise.Iface.Handlers.Structure
use ip_noise.Iface.Handlers.Filters
use ip_noise.Iface.Handlers.States
use Prim.Native.Nat.{Ordering, compare}
use ip_noise.BinarySearch.{bsearch}
use ip_noise.Common.{ℕ, Option, none, some, List, [], ◌∷◌, if◌then◌else◌, get_elem?}
use ip_noise.Common.Fault.{◌>>=◌}
use ip_noise.Iface.Handlers.Access.{Reply}
use ip_noise.Iface.Handlers.Structure.{handle_clear_all}
use ip_noise.Iface.Monad.{faults, M, stop}
use ip_noise.Iface.Read.{Param, ParamType}
use ip_noise.Model.{Externals}

-- The handlers, by name.
pub data Handler : Type 0 where
  new_chain new_state set_move_probs set_source set_dest set_protocol set_tos : Handler
  set_length_min set_length_max set_which_length set_drop_delay_prob set_delay_type : Handler
  set_split_linear_points set_lambda set_time_factor set_stable_delay_prob : Handler
  clear_all end_connection : Handler

-- operation_t. Every out parameter of the table is PARAM_TYPE_INT.
pub record Operation : Type 0 where
  pub opcode : ℕ
  pub params : List ParamType
  pub num_out_params : ℕ
  pub handler : Handler

abbrev row : ℕ → List ParamType → ℕ → Handler → Operation
row opcode params outs handler = record {
  opcode = opcode;
  params = params;
  num_out_params = outs;
  handler = handler;
}

abbrev pub operations : List Operation
operations =
    row 0x0 (ParamType.string ∷ []) 1 Handler.new_chain
    ∷ row 0x1 (ParamType.chain ∷ ParamType.string ∷ []) 1 Handler.new_state
    ∷ row 0x2 (ParamType.chain ∷ ParamType.int ∷ ParamType.int ∷ []) 0 Handler.set_move_probs
    ∷ row 0x3 (ParamType.chain ∷ ParamType.ip_filter ∷ []) 0 Handler.set_source
    ∷ row 0x4 (ParamType.chain ∷ ParamType.ip_filter ∷ []) 0 Handler.set_dest
    ∷ row 0x5 (ParamType.chain ∷ ParamType.int ∷ ParamType.bool ∷ []) 0 Handler.set_protocol
    ∷ row 0x6 (ParamType.chain ∷ ParamType.int ∷ ParamType.bool ∷ []) 0 Handler.set_tos
    ∷ row 0x8 (ParamType.chain ∷ ParamType.int ∷ []) 0 Handler.set_length_min
    ∷ row 0x9 (ParamType.chain ∷ ParamType.int ∷ []) 0 Handler.set_length_max
    ∷ row 0xA (ParamType.chain ∷ ParamType.which_packet_length ∷ []) 0 Handler.set_which_length
    ∷ row 0xE (ParamType.chain ∷ ParamType.state ∷ ParamType.prob ∷ ParamType.prob ∷ []) 0
        Handler.set_drop_delay_prob
    ∷ row 0xF (ParamType.chain ∷ ParamType.state ∷ ParamType.delay_function_type ∷ []) 0
        Handler.set_delay_type
    ∷ row 0x10 (ParamType.chain ∷ ParamType.state ∷ ParamType.split_linear_points ∷ []) 0
        Handler.set_split_linear_points
    ∷ row 0x11 (ParamType.chain ∷ ParamType.state ∷ ParamType.lambda_value ∷ []) 0
        Handler.set_lambda
    ∷ row 0x13 (ParamType.chain ∷ ParamType.state ∷ ParamType.delay_value ∷ []) 0
        Handler.set_time_factor
    ∷ row 0x14 (ParamType.chain ∷ ParamType.state ∷ ParamType.prob ∷ []) 0
        Handler.set_stable_delay_prob
    ∷ row 0x19 [] 0 Handler.clear_all
    ∷ row 0x10000 [] 0 Handler.end_connection
    ∷ []

-- opcode_compare_w_context, with the opcode that is looked for on the left
unfoldable pub opcode_compare : ℕ → Operation → Ordering
opcode_compare opcode op = compare opcode op.opcode

-- The search of the table: `none` is `found == 0`.
unfoldable pub find_operation : ℕ → Option (Option Operation)
unfolding bsearch opcode_compare
find_operation opcode = do
  r ← bsearch (opcode_compare opcode) operations
  if r.found then (do op ← get_elem? operations r.index; some (some op)) else some none

module _ (x : Externals) where
  -- `record->handler(self, params, out_params)`. A member of the union that was not set is garbage.
  unfoldable pub call : Handler → List (Param x) → M x Reply
  unfolding Structure.new_chain Structure.new_state Structure.set_move_probs
      Structure.handle_clear_all Structure.end_connection Filters.set_source Filters.set_dest
      Filters.set_protocol Filters.set_tos Filters.set_length_min Filters.set_length_max
      Filters.set_which_length States.set_drop_delay_prob States.set_delay_type
      States.set_split_linear_points States.set_lambda States.set_time_factor
      States.set_stable_delay_prob
  call Handler.new_chain (Param.string name ∷ []) = Structure.new_chain x name
  call Handler.new_state (Param.chain i ∷ Param.string name ∷ []) = Structure.new_state x i name
  call Handler.set_move_probs (Param.chain i ∷ Param.int n ∷ Param.int m ∷ []) =
      Structure.set_move_probs x i n m
  call Handler.set_source (Param.chain i ∷ Param.ip_filter f ∷ []) = Filters.set_source x i f
  call Handler.set_dest (Param.chain i ∷ Param.ip_filter f ∷ []) = Filters.set_dest x i f
  call Handler.set_protocol (Param.chain i ∷ Param.int n ∷ Param.bool b ∷ []) =
      Filters.set_protocol x i n b
  call Handler.set_tos (Param.chain i ∷ Param.int n ∷ Param.bool b ∷ []) = Filters.set_tos x i n b
  call Handler.set_length_min (Param.chain i ∷ Param.int n ∷ []) = Filters.set_length_min x i n
  call Handler.set_length_max (Param.chain i ∷ Param.int n ∷ []) = Filters.set_length_max x i n
  call Handler.set_which_length (Param.chain i ∷ Param.which_packet_length w ∷ []) =
      Filters.set_which_length x i w
  call Handler.set_drop_delay_prob
        (Param.chain i ∷ Param.state j ∷ Param.prob p ∷ Param.prob q ∷ []) =
      States.set_drop_delay_prob x i j p q
  call Handler.set_delay_type (Param.chain i ∷ Param.state j ∷ Param.delay_function_type t ∷ []) =
      States.set_delay_type x i j t
  call Handler.set_split_linear_points
        (Param.chain i ∷ Param.state j ∷ Param.split_linear_points ps ∷ []) =
      States.set_split_linear_points x i j ps
  call Handler.set_lambda (Param.chain i ∷ Param.state j ∷ Param.lambda_value l ∷ []) =
      States.set_lambda x i j l
  call Handler.set_time_factor (Param.chain i ∷ Param.state j ∷ Param.delay_value d ∷ []) =
      States.set_time_factor x i j d
  call Handler.set_stable_delay_prob (Param.chain i ∷ Param.state j ∷ Param.prob p ∷ []) =
      States.set_stable_delay_prob x i j p
  call Handler.clear_all [] = Structure.handle_clear_all x
  call Handler.end_connection [] = Structure.end_connection x
  call _ _ = stop faults
