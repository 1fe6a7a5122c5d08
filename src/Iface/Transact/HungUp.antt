-- ===== src/Iface/Transact/HungUp.antt =====
-- A transaction that the end of the connection cuts off.
use ip_noise.Common.{◌≡◌, ap, false}
use ip_noise.Iface.Monad.{Iface, Outcome, done, failed}
use ip_noise.Iface.Transact.{transaction, handle_error, after_error, transact}
use ip_noise.Iface.Transact.ReadOnly.{text, OnlyRead}
use ip_noise.Iface.Transact.Rollback.{transaction-IsAtomic}
use ip_noise.Model.{Externals}
use ip_noise.TextQueue.In.{conn_term, TextQueueIn}
use ip_noise.TextQueue.In.Laws.{IsValid}

module _ (x : Externals) where
  cut_off :
      (s t : Iface x) (o : Outcome (Unit {0}))
      → o ≡ failed conn_term
      → OnlyRead s t
      → (q : TextQueueIn) × (after_error x o t
          ≡ (done tt, record s { text_queue_in = q; continue = false }))
        × (text q ≡ text s.text_queue_in)
  unfolding after_error handle_error
  cut_off s t o e p = (
    t.text_queue_in,
    rw e (ap (λ (r : Iface x). (done tt, record r { continue = false })) p.same_rest),
    p.same_text,
  )

  -- On a valid input queue, a transaction whose reads come to too few bytes on a connection that
  -- the peer closed ends normally, and changes nothing of the interface but the flag to go on,
  -- which is cleared, and the read position of the input queue, whose text stays.
  pub transact-hung_up :
      (s : Iface x)
      → IsValid s.text_queue_in
      → (transaction x s).0 ≡ failed conn_term
      → (q : TextQueueIn) × (transact x s
          ≡ (done tt, record s { text_queue_in = q; continue = false }))
        × (text q ≡ text s.text_queue_in)
  unfolding transact
  transact-hung_up s v e =
      cut_off s (transaction x s).1 (transaction x s).0 e
        ((transaction-IsAtomic x).safe s conn_term v e)
