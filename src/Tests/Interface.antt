-- ===== src/Tests/Interface.antt =====
-- The interface.
use ip_noise.TextQueue.In.Laws as InLaws
use ip_noise.Common.{◌≡◌, refl, ◌≢◌, true, false, none, [], ◌∷◌, ◌++◌, arith}
use ip_noise.Common.Int.{negsuc}
use ip_noise.Iface.Connection.{Server, init_connection}
use ip_noise.Iface.Monad.{Iface, done, failed, out_of_fuel}
use ip_noise.Iface.Read.{ParamType, read_int, read_param_type}
use ip_noise.Iface.Read.Fuel.{read_param_type-halts}
use ip_noise.Iface.Transact.{int_bytes, transaction, transact}
use ip_noise.Iface.Transact.HungUp.{transact-hung_up}
use ip_noise.Iface.Transact.ReadOnly.{text}
use ip_noise.Iface.Transact.Rollback.{transact-rolled_back}
use ip_noise.Iface.Transact.Wire.{read_int-int_bytes}
use ip_noise.Model.Alloc.{data_alloc}
use ip_noise.Tests.{toy, buffer_of}
use ip_noise.TextQueue.In.{conn_term, not_fully, TextQueueIn, read_bytes}
use ip_noise.TextQueue.In.Laws.{taken, unread, Holds}
use ip_noise.TextQueue.Memory.{read_at}

-- The opcode of new_chain, and the first two bytes of the name.
abbrev half_sent : TextQueueIn
half_sent = record {
  buffer = buffer_of (0 ∷ 0 ∷ 0 ∷ 0 ∷ 65 ∷ 66 ∷ []);
  length = 6;
  max_size = 2048;
  ptr_offset = 0;
  is_conn_closed = false;
}

abbrev fresh : TextQueueIn → Iface toy
fresh q = record {
  data_copy = record { max_num_chains = 16; chains = []; chain_names = [] };
  continue = true;
  last_chain = negsuc 0;
  last_state = none;
  text_queue_in = q;
  text_queue_out = record { buffer = buffer_of []; length = 0; max_size = 2048; ptr_offset = 0 };
}

half_sent-IsValid : InLaws.IsValid half_sent
half_sent-IsValid = record { position = omega arith; inside = omega arith }

stops_short : (transaction toy (fresh half_sent)).0 ≡ failed not_fully
unfolding transaction read_bytes
stops_short = refl

transact-rolled_back_example :
    (q : TextQueueIn) × (transact toy (fresh half_sent)
      ≡ (done tt, record (fresh half_sent) { text_queue_in = q }))
    × Holds q [] (text half_sent)
transact-rolled_back_example =
    transact-rolled_back toy (fresh half_sent) half_sent-IsValid stops_short

abbrev connected : Server toy
connected =
    init_connection toy (λ i. 0) (λ i. 0)
      (record { data_in_use = data_alloc toy; reinit_switcher = false; iface = fresh half_sent })

read_param_type-halts_example :
    (read_param_type toy ParamType.ip_filter (fresh half_sent)).0 ≢ out_of_fuel
read_param_type-halts_example =
    read_param_type-halts toy ParamType.ip_filter (fresh half_sent) half_sent-IsValid

abbrev number : TextQueueIn
number = record half_sent { buffer = buffer_of (2 ∷ 1 ∷ 0 ∷ 0 ∷ 9 ∷ []); length = 5 }

number-Holds : Holds number [] (int_bytes 258 ++ 9 ∷ [])
unfolding taken unread int_bytes read_at
number-Holds = record {
  valid = record { position = omega arith; inside = omega arith };
  taken_is = refl;
  unread_is = refl;
}

read_int-int_bytes_example :
    (q : TextQueueIn) × (read_int toy (fresh number)
      ≡ (done 258, record (fresh number) { text_queue_in = q }))
    × Holds q (int_bytes 258) (9 ∷ [])
read_int-int_bytes_example = read_int-int_bytes (fresh number) 258 (omega arith) number-Holds

abbrev cut_short : TextQueueIn
cut_short = record half_sent { is_conn_closed = true }

ends_short : (transaction toy (fresh cut_short)).0 ≡ failed conn_term
unfolding transaction read_bytes
ends_short = refl

transact-hung_up_example :
    (q : TextQueueIn) × (transact toy (fresh cut_short)
      ≡ (done tt, record (fresh cut_short) { text_queue_in = q; continue = false }))
    × (text q ≡ text cut_short)
transact-hung_up_example =
    transact-hung_up toy (fresh cut_short) (record { position = omega arith; inside = omega arith })
      ends_short
