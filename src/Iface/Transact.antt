-- ===== src/Iface/Transact.antt =====
-- ip_noise_arbitrator_iface_transact of C/arbitrator/iface.c: one transaction.
pub mod ReadOnly
pub mod Atomic
pub mod Rollback
pub mod HungUp
pub mod Wire
use ip_noise.Common.{ℕ, zero, suc, ◌/◌, ◌%◌, ◌^◌, false, Option, none, some, List, [], ◌∷◌}
use ip_noise.Iface.Monad.{Iface, Outcome, done, failed, M, ◌>>=◌, ◌>>◌, pure, get, put, or_fault}
use ip_noise.Iface.Operations.{Operation, find_operation, call}
use ip_noise.Iface.Read.{Param, ParamType, read_int, read_param_type}
use ip_noise.Model.{Externals}
use ip_noise.TextQueue.In.{ReadError, conn_term, not_fully, commit, rollback}
use ip_noise.TextQueue.Out.{input_bytes}

-- The four bytes of write_int.
unfoldable pub int_bytes : ℕ → List ℕ
int_bytes n = n % 256 ∷ n / 2 ^ 8 % 256 ∷ n / 2 ^ 16 % 256 ∷ n / 2 ^ 24 % 256 ∷ []

module _ (x : Externals) where
  -- write_int and write_retvalue
  unfoldable pub write_int : ℕ → M x (Unit {0})
  unfolding int_bytes input_bytes
  write_int n = do
    s ← get
    put (record s { text_queue_out = input_bytes s.text_queue_out (int_bytes n) })

  -- An out parameter that the handler did not set is written as it is.
  unfoldable pub out_value : Option ℕ → ℕ
  out_value none = x.indeterminate
  out_value (some n) = n

  unfoldable pub write_outs : ℕ → Option ℕ → M x (Unit {0})
  unfolding write_int out_value
  write_outs zero out = pure tt
  write_outs (suc n) out = do write_int (out_value out); write_outs n out

  -- The loop that reads the parameters.
  unfoldable pub read_params : List ParamType → M x (List (Param x))
  unfolding read_param_type
  read_params [] = pure []
  read_params (t ∷ ts) = do p ← read_param_type x t; ps ← read_params ts; pure (p ∷ ps)

  -- ip_noise_read_commit
  unfoldable pub read_commit : M x (Unit {0})
  unfolding commit
  read_commit = do s ← get; put (record s { text_queue_in = commit s.text_queue_in })

  -- A transaction whose opcode is in the table.
  unfoldable pub run_operation : Operation → M x (Unit {0})
  unfolding read_params call read_commit write_int write_outs
  run_operation op = do
    params ← read_params op.params
    reply ← call x op.handler params
    read_commit
    write_int reply.code
    write_outs op.num_out_params reply.out

  -- The transaction, up to an error of a read.
  unfoldable pub transaction : M x (Unit {0})
  unfolding read_int find_operation run_operation write_int
  transaction = do
    opcode ← read_int x
    found ← or_fault (find_operation opcode)
    elim found [ none ↦ write_int 2 | some op ↦ run_operation op ]

  -- What every error of a read leads to: the end of the connection, or a rollback.
  unfoldable pub handle_error : ReadError → Iface x → Iface x
  unfolding rollback
  handle_error conn_term s = record s { continue = false }
  handle_error not_fully s = record s { text_queue_in = rollback s.text_queue_in }

  unfoldable pub after_error : Outcome (Unit {0}) → Iface x → Outcome (Unit {0}) × Iface x
  unfolding handle_error
  after_error (failed e) s = (done tt, handle_error e s)
  after_error o s = (o, s)

  unfoldable pub transact : M x (Unit {0})
  unfolding transaction after_error
  transact s = after_error (transaction s).0 (transaction s).1
