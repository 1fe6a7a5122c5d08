-- ===== src/Kernel/Device/Writes.antt =====
-- What one write to the device does.
use mathlib.Core.Path.{subst, ap₂}
use ip_noise.Common.{ℕ, ◌^◌, ◌<◌, ◌≡◌, refl, ap, ◌∙◌, none, some, List, [], ◌++◌, length}
use ip_noise.Iface.Connection.{Server}
use ip_noise.Iface.Monad.{Iface, done, failed, M, proceed, ◌>>=◌, or_fault}
use ip_noise.Iface.Operations.{find_operation}
use ip_noise.Iface.Read.{read_int}
use ip_noise.Iface.Transact.{
  int_bytes, write_int, run_operation, transaction, after_error, transact,
}
use ip_noise.Iface.Transact.Rollback.{transact-rolled_back}
use ip_noise.Iface.Transact.Wire.{read_int-int_bytes}
use ip_noise.Kernel.Device.{fed, device_write}
use ip_noise.Model.{Externals}
use ip_noise.TextQueue.In.{not_fully, TextQueueIn}
use ip_noise.TextQueue.In.Laws.{Holds, put_bytes-Holds}
use ip_noise.TextQueue.Out.{input_bytes}

module _ (x : Externals) where
  -- What the client wrote is in the queue, behind what was there.
  fed-Holds :
      (s : Server x) (buffer : List ℕ) {a b : List ℕ}
      → Holds s.iface.text_queue_in a b
      → Holds (fed x buffer s.iface).text_queue_in a (b ++ buffer)
  unfolding fed
  fed-Holds s buffer h = put_bytes-Holds s.iface.text_queue_in h buffer

  -- If a write to the device does not complete a transaction, it returns the length, changes
  -- nothing of the interface but the input queue, and leaves there, unread, all that had come in
  -- and the new bytes.
  pub device_write-keeps :
      (s : Server x) (buffer : List ℕ) {a b : List ℕ}
      → Holds s.iface.text_queue_in a b
      → (transaction x (fed x buffer s.iface)).0 ≡ failed not_fully
      → (q : TextQueueIn) × (device_write x buffer s
          ≡ (done tt, length buffer, record s { iface = record s.iface { text_queue_in = q } }))
        × Holds q [] (a ++ (b ++ buffer))
  unfolding device_write
  device_write-keeps s buffer h e =
      let k = fed-Holds s buffer h in
      let (q, r, l) = transact-rolled_back x (fed x buffer s.iface) k.valid e in
      (q, rw r (unfold fed in refl), subst (Holds q []) (ap₂ ◌++◌ k.taken_is k.unread_is) l)

  -- What a transaction does once it has the number of the operation.
  respond : ℕ → M x (Unit {0})
  respond opcode = do
    found ← or_fault (find_operation opcode)
    elim found [ none ↦ write_int x 2 | some op ↦ run_operation x op ]

  transaction-respond : (i : Iface x) → transaction x i ≡ (read_int x >>= respond) i
  unfolding transaction respond
  transaction-respond i = refl

  respond-unknown :
      (n : ℕ) (i : Iface x) → find_operation n ≡ some none → respond n i ≡ write_int x 2 i
  unfolding respond
  respond-unknown n i e = rw e refl

  -- An unknown operation is answered by the number 2.
  answered : Iface x → TextQueueIn → Iface x
  answered i q = record i {
    text_queue_in = q;
    text_queue_out = input_bytes i.text_queue_out (int_bytes 2);
  }

  write_int-answered :
      (i : Iface x) (q : TextQueueIn)
      → write_int x 2 (record i { text_queue_in = q }) ≡ (done tt, answered i q)
  unfolding write_int answered
  write_int-answered i q = refl

  transaction-unknown :
      (i : Iface x) (n : ℕ) (q : TextQueueIn)
      → find_operation n ≡ some none
      → read_int x i ≡ (done n, record i { text_queue_in = q })
      → transaction x i ≡ (done tt, answered i q)
  transaction-unknown i n q e r =
      let next : Iface x = record i { text_queue_in = q } in
      transaction-respond i
      ∙ ap (λ p. proceed p.0 p.1 respond) r
      ∙ respond-unknown n next e
      ∙ write_int-answered i q

  transact-after :
      (i : Iface x) → transact x i ≡ after_error x (transaction x i).0 (transaction x i).1
  unfolding transact
  transact-after i = refl

  after_done : (i : Iface x) → after_error x (done tt) i ≡ (done tt, i)
  unfolding after_error
  after_done i = refl

  transact-unknown :
      (i : Iface x) (n : ℕ) (q : TextQueueIn)
      → find_operation n ≡ some none
      → read_int x i ≡ (done n, record i { text_queue_in = q })
      → transact x i ≡ (done tt, answered i q)
  transact-unknown i n q e r =
      transact-after i
      ∙ ap (λ p. after_error x p.0 p.1) (transaction-unknown i n q e r)
      ∙ after_done (answered i q)

  -- A write whose bytes begin with a number that is the code of no operation, where nothing was
  -- left to read, is answered once, by the number 2; the rest of the bytes stays unread, whatever
  -- it is.
  pub device_write-one_answer :
      (s : Server x) (n : ℕ) (rest : List ℕ) {a : List ℕ}
      → n < 2 ^ 31
      → find_operation n ≡ some none
      → Holds s.iface.text_queue_in a []
      → (q : TextQueueIn) × (device_write x (int_bytes n ++ rest) s ≡ (
        done tt,
        length (int_bytes n ++ rest),
        record s {
          iface = record s.iface {
            text_queue_in = q;
            text_queue_out = input_bytes s.iface.text_queue_out (int_bytes 2);
          };
        },
      ))
        × Holds q (a ++ int_bytes n) rest
  unfolding device_write
  device_write-one_answer s n rest l e h =
      let k = fed-Holds s (int_bytes n ++ rest) h in
      let (q, r, t) = read_int-int_bytes (fed x (int_bytes n ++ rest) s.iface) n l k in
      let w = transact-unknown (fed x (int_bytes n ++ rest) s.iface) n q e r in
      (q, rw w (unfold fed answered in refl), t)
