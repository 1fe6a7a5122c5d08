-- ===== src/Tests/Devices.antt =====
-- The device of the kernel build, the pipes of the program's, and what waits in between.
use ip_noise.TextQueue.In
use ip_noise.TextQueue.In.Laws as InLaws
use ip_noise.TextQueue.Out.Laws as OutLaws
use ip_noise.TextQueue.Out
use ip_noise.Common.{length, ℕ, ◌≡◌, refl, true, false, none, some, [], ◌∷◌, ◌++◌, arith}
use ip_noise.Common.Int.{negsuc}
use ip_noise.Iface.Connection.{Server}
use ip_noise.Iface.Monad.{done, failed}
use ip_noise.Iface.Operations.{find_operation}
use ip_noise.Iface.Pipes.{Line, LineStep, LineReached}
use ip_noise.Iface.Pipes.Laws.{send_rounds, LineReached-sends}
use ip_noise.Iface.Transact.{int_bytes, transaction}
use ip_noise.Kernel.Device.{fed, device_write}
use ip_noise.Kernel.Device.Writes.{device_write-keeps, device_write-one_answer}
use ip_noise.Model.Alloc.{data_alloc}
use ip_noise.Tests.{toy}
use ip_noise.TextQueue.In.{not_fully, TextQueueIn, read_bytes}
use ip_noise.TextQueue.In.Laws.{unread, Holds}
use ip_noise.TextQueue.Memory.{read_at}
use ip_noise.TextQueue.Out.{alloc, input_bytes}
use ip_noise.TextQueue.Out.Laws.{pending}

abbrev buffer : ℕ → ℕ
buffer i = 0

-- The server of a device that was opened.
abbrev opened : Server toy
opened = record {
  data_in_use = data_alloc toy;
  reinit_switcher = false;
  iface = record {
    data_copy = data_alloc toy;
    continue = true;
    last_chain = negsuc 0;
    last_state = none;
    text_queue_in = In.alloc buffer;
    text_queue_out = Out.alloc buffer;
  };
}

abbrev loaded_server : Server toy
loaded_server = record opened { iface = record opened.iface { continue = false } }

opened-Holds : InLaws.Holds opened.iface.text_queue_in [] []
unfolding In.alloc InLaws.taken InLaws.unread read_at
opened-Holds = record {
  valid = record { position = omega arith; inside = omega arith };
  taken_is = refl;
  unread_is = refl;
}

-- The opcode of new_chain, and the first two bytes of its name.
half_written :
    (transaction toy (fed toy (0 ∷ 0 ∷ 0 ∷ 0 ∷ 65 ∷ 66 ∷ []) opened.iface)).0 ≡ failed not_fully
unfolding transaction fed read_bytes In.alloc
half_written = refl

device_write-keeps_example :
    (q : TextQueueIn) × (device_write toy (0 ∷ 0 ∷ 0 ∷ 0 ∷ 65 ∷ 66 ∷ []) opened
      ≡ (done tt, 6, record opened { iface = record opened.iface { text_queue_in = q } }))
    × InLaws.Holds q [] (0 ∷ 0 ∷ 0 ∷ 0 ∷ 65 ∷ 66 ∷ [])
device_write-keeps_example =
    device_write-keeps toy opened (0 ∷ 0 ∷ 0 ∷ 0 ∷ 65 ∷ 66 ∷ []) opened-Holds half_written

unknown : find_operation 1000 ≡ some none
unfolding find_operation
unknown = refl

-- Two transactions in one write.
device_write-one_answer_example :
    (q : TextQueueIn) × (device_write toy (int_bytes 1000 ++ int_bytes 1000) opened ≡ (
      done tt,
      8,
      record opened {
        iface = record opened.iface {
          text_queue_in = q;
          text_queue_out = input_bytes opened.iface.text_queue_out (int_bytes 2);
        };
      },
    ))
    × InLaws.Holds q (int_bytes 1000) (int_bytes 1000)
unfolding int_bytes
device_write-one_answer_example =
    device_write-one_answer toy opened 1000 (int_bytes 1000) (omega arith) unknown opened-Holds

abbrev answered_line : Line
answered_line = record {
  queue = input_bytes (Out.alloc buffer) (1 ∷ 2 ∷ []);
  given = 1 ∷ 2 ∷ [];
  sent = [];
}

LineReached-sends_example :
    (answered_line.given ≡ OutLaws.pending answered_line.queue)
    × ((send_rounds (length (OutLaws.pending answered_line.queue)) answered_line).sent ≡ 1 ∷ 2 ∷ [])
LineReached-sends_example =
    LineReached-sends answered_line
      (LineReached.later LineReached.connected (LineStep.gives (1 ∷ 2 ∷ []) (omega arith)))
