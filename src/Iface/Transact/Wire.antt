-- ===== src/Iface/Transact/Wire.antt =====
-- The numbers that write_int sends are those that read_int reads.
use ip_noise.TextQueue.In.Laws
use ip_noise.Common.{ℕ, ◌^◌, ◌<◌, ◌≡◌, refl, ap, ◌⊎◌, List, [], ◌∷◌, ◌++◌, arith, length}
use ip_noise.Iface.Monad.{Iface, done}
use ip_noise.Iface.Read.{le32, clamp_int, read, read_int}
use ip_noise.Iface.Read.Fuel.{read_answer}
use ip_noise.Iface.Transact.{int_bytes}
use ip_noise.Model.{Externals}
use ip_noise.TextQueue.In.{ReadError, TextQueueIn, read_bytes}
use ip_noise.TextQueue.In.Laws.{Holds, bytes_read, too_few, read_bytes-Reads}

le32-int_bytes : (n : ℕ) → n < 2 ^ 31 → clamp_int (le32 (int_bytes n)) ≡ n
unfolding le32 int_bytes clamp_int
le32-int_bytes n h = ground arith

append-split : (a b c d : List ℕ) → a ++ c ≡ b ++ d → length a ≡ length b → (a ≡ b) × (c ≡ d)
append-split [] [] c d e l = (refl, e)
append-split [] (y ∷ b) c d e l = absurd (omega arith)
append-split (x ∷ a) [] c d e l = absurd (omega arith)
append-split (x ∷ a) (y ∷ b) c d e l =
    let h : a ++ c ≡ b ++ d = cc in let (p, q) = append-split a b c d h (omega arith) in (cc, q)

module _ {x : Externals} (s : Iface x) where
  answer :
      (n : ℕ) {a rest : List ℕ} (h : Holds s.text_queue_in a (int_bytes n ++ rest))
      (r : ReadError ⊎ (List ℕ × TextQueueIn))
      → Laws.Reads s.text_queue_in h 4 r
      → (q : TextQueueIn) × (read_answer s r ≡ (done (int_bytes n), record s { text_queue_in = q }))
        × Holds q (a ++ int_bytes n) rest
  unfolding read_answer int_bytes
  answer n h r (Laws.Reads.too_few l) = absurd (omega (arith, l))
  answer n {a} {rest} h r (Laws.Reads.bytes_read {q'} {bytes} {rest = rest'} e l k) =
      let (p, q) = append-split (int_bytes n) bytes rest rest' e (omega (arith, l)) in
      (q', rw p refl, rw (p, q) k)

  -- When the unread text begins with the bytes that write_int sends for a number below 2 ^ 31,
  -- read_int returns that number, takes just those bytes, and changes nothing but the input queue.
  pub read_int-int_bytes :
      (n : ℕ) {a rest : List ℕ}
      → n < 2 ^ 31
      → Holds s.text_queue_in a (int_bytes n ++ rest)
      → (q : TextQueueIn) × (read_int x s ≡ (done n, record s { text_queue_in = q }))
        × Holds q (a ++ int_bytes n) rest
  unfolding read_int read read_answer
  read_int-int_bytes n small h =
      let (q, e, k) =
        answer n h (read_bytes s.text_queue_in 4) (read_bytes-Reads s.text_queue_in h 4) in
      (q, rw e (ap (λ m. (done m, record s { text_queue_in = q })) (le32-int_bytes n small)), k)
