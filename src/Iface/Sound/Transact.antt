-- ===== src/Iface/Sound/Transact.antt =====
-- A transaction of C/arbitrator/iface.c keeps the state of the interface well formed.
use ip_noise.Common.{ℕ, zero, suc, Option}
use ip_noise.Iface.Monad.{Iface, Outcome, done, failed, exits, faults, out_of_fuel}
use ip_noise.Iface.Operations.{Operation, find_operation}
use ip_noise.Iface.Sound.{IsSound}
use ip_noise.Iface.Sound.Handlers.{call-Keeps}
use ip_noise.Iface.Sound.Keeps.{
  Keeps, Keeps-pure, Keeps-or_fault, Reads-Keeps, Keeps-bind, Keeps-elim,
}
use ip_noise.Iface.Transact.{
  int_bytes, write_int, out_value, write_outs, read_commit, run_operation, transaction,
  handle_error, after_error, transact,
}
use ip_noise.Iface.Transact.ReadOnly.{holds_itself, Reads-read_int}
use ip_noise.Iface.Transact.Rollback.{Reads-read_params}
use ip_noise.Model.{Externals}
use ip_noise.TextQueue.In.{conn_term, not_fully}
use ip_noise.TextQueue.In.Laws.{rollback-Holds, commit-Holds}
use ip_noise.TextQueue.Out.Laws.{input_bytes-IsValid}

module _ (x : Externals) where
  write_int-Keeps : (n : ℕ) → Keeps (write_int x n)
  unfolding write_int
  write_int-Keeps n = record {
    kept = λ s v. record {
      input = v.input;
      output = input_bytes-IsValid s.text_queue_out (int_bytes n) v.output;
      data_copy = v.data_copy;
    };
  }

  write_outs-Keeps : (n : ℕ) (o : Option ℕ) → Keeps (write_outs x n o)
  unfolding write_outs
  write_outs-Keeps zero o = Keeps-pure tt
  write_outs-Keeps (suc n) o =
      Keeps-bind (write_int-Keeps (out_value x o)) λ u. write_outs-Keeps n o

  read_commit-Keeps : Keeps (read_commit x)
  unfolding read_commit
  read_commit-Keeps = record {
    kept = λ s v. record {
      input = (commit-Holds s.text_queue_in (holds_itself s v.input)).valid;
      output = v.output;
      data_copy = v.data_copy;
    };
  }

  run_operation-Keeps : (op : Operation) → Keeps (run_operation x op)
  unfolding run_operation
  run_operation-Keeps op = Keeps-bind (Reads-Keeps (Reads-read_params x op.params)) λ ps.
      Keeps-bind (call-Keeps x op.handler ps) λ r.
        Keeps-bind read_commit-Keeps
          λ u. Keeps-bind (write_int-Keeps r.code) λ v. write_outs-Keeps op.num_out_params r.out

  transaction-Keeps : Keeps (transaction x)
  unfolding transaction
  transaction-Keeps = Keeps-bind (Reads-Keeps (Reads-read_int x)) λ opcode.
      Keeps-bind (Keeps-or_fault (find_operation opcode))
        λ found. Keeps-elim found (write_int-Keeps 2) λ op e. run_operation-Keeps op

  after_error-IsSound :
      (o : Outcome (Unit {0})) (s : Iface x) → IsSound x s → IsSound x (after_error x o s).1
  unfolding after_error handle_error
  after_error-IsSound (failed conn_term) s v = record {
    input = v.input;
    output = v.output;
    data_copy = v.data_copy;
  }
  after_error-IsSound (failed not_fully) s v = record {
    input = (rollback-Holds s.text_queue_in (holds_itself s v.input)).valid;
    output = v.output;
    data_copy = v.data_copy;
  }
  after_error-IsSound (done u) s v = v
  after_error-IsSound exits s v = v
  after_error-IsSound faults s v = v
  after_error-IsSound out_of_fuel s v = v

  -- However it ends, a transaction leaves a well-formed state of the interface well formed.
  pub transact-IsSound : (s : Iface x) → IsSound x s → IsSound x (transact x s).1
  unfolding transact
  transact-IsSound s v =
      after_error-IsSound (transaction x s).0 (transaction x s).1 (transaction-Keeps.kept s v)
