-- ===== src/Iface/Read/Fuel.antt =====
-- The loops of read_param_type end: each round reads at least one byte of the queue.
-- What ip_noise_read makes of the answer of the queue.
use ip_noise.Common.{
  ℕ, zero, suc, ◌+◌, ◌≤◌, ◌<◌, ◌≡◌, refl, ◌≢◌, ◌⊎◌, inl, inr, List, arith, ltb, ◌==◌, if◌then◌else◌,
  Bool-cases,
}
use ip_noise.Common.Int.{pos}
use ip_noise.Iface.Monad.{
  Iface, Outcome, done, failed, exits, out_of_fuel, M, ◌>>=◌, pure, stop, or_fault,
}
use ip_noise.Iface.Read.{
  Param, ParamType, be32, terminator, read, read_int, read_uint16, read_string, read_chain,
  read_state, read_prob, read_port_ranges, fuel_for, read_all_port_ranges, read_specs, filter_of,
  read_ip_filter, read_points, read_param_type,
}
use ip_noise.Iface.Read.Moves.{
  at, size, Moves, Moves-pure, Moves-or_fault, Moves-exits, Moves-if, Moves-bind, Moves-get-bind,
  Moves-any,
}
use ip_noise.Model.{Externals}
use ip_noise.Model.Alloc.{id_len, one_prob}
use ip_noise.TextQueue.In.{ReadError, TextQueueIn, read_bytes}
use ip_noise.TextQueue.In.Laws.{IsValid}

unfoldable pub read_answer :
    {x : Externals} → Iface x → ReadError ⊎ (List ℕ × TextQueueIn) → Outcome (List ℕ) × Iface x
read_answer s (inl e) = (failed e, s)
read_answer s (inr (bytes, q)) = (done bytes, record s { text_queue_in = q })

-- What a read of `n` bytes is known by.
Answers : TextQueueIn → ℕ → ReadError ⊎ (List ℕ × TextQueueIn) → Type 0
Answers q n (inl e) = Unit
Answers q n (inr (bytes, q')) =
    (q'.length ≡ q.length) × (q.ptr_offset + n ≡ q'.ptr_offset) × (q'.ptr_offset ≤ q'.length)

read_bytes-Answers : (q : TextQueueIn) (n : ℕ) → Answers q n (read_bytes q n)
unfolding read_bytes Answers
read_bytes-Answers q n = elim (Bool-cases (ltb q.length (q.ptr_offset + n))) [
  | inl e ↦ rw e tt
  | inr e ↦ rw e (refl, refl, ground arith)
]

module _ (x : Externals) where
  answer-Moves :
      (n : ℕ) (s : Iface x) (r : ReadError ⊎ (List ℕ × TextQueueIn))
      → Answers s.text_queue_in n r
      → Moves n (λ _. read_answer s r) s
  unfolding read_answer Answers
  answer-Moves n s (inl e) h = record { halts = λ h. cc; moves = λ b e'. cc }
  answer-Moves n s (inr (bytes, q)) h = record {
    halts = λ h. cc;
    moves = λ b e. record { same_size = h.0; later = omega (arith, h); inside = λ i. h.2 };
  }

  Moves-read : (n : ℕ) (s : Iface x) → Moves n (read x n) s
  unfolding read read_answer
  Moves-read n s =
      let p =
        answer-Moves n s (read_bytes s.text_queue_in n) (read_bytes-Answers s.text_queue_in n) in
      record { halts = p.halts; moves = p.moves }

  Moves-read_int : (s : Iface x) → Moves 4 (read_int x) s
  unfolding read_int
  Moves-read_int s = Moves-bind (Moves-read 4 s) λ a t l. Moves-pure _ t

  Moves-read_uint16 : (s : Iface x) → Moves 2 (read_uint16 x) s
  unfolding read_uint16
  Moves-read_uint16 s = Moves-bind (Moves-read 2 s) λ a t l. Moves-pure _ t

  Moves-read_prob : (s : Iface x) → Moves 8 (read_prob x) s
  unfolding read_prob
  Moves-read_prob s = Moves-bind (Moves-read 8 s) λ a t l. Moves-pure _ t

  Moves-read_port_ranges :
      (fuel : ℕ) (s : Iface x)
      → at s ≤ size s
      → size s < at s + fuel
      → Moves 0 (read_port_ranges x fuel) s
  unfolding read_port_ranges
  Moves-read_port_ranges zero s v h = absurd (omega (arith, v, h))
  Moves-read_port_ranges (suc fuel) s v h = Moves-any (
      Moves-bind (Moves-read_uint16 s) λ a t l. Moves-bind (Moves-read_uint16 t) λ b u k.
        Moves-if (ltb b a) (Moves-pure _ u) (
          Moves-bind
            (Moves-read_port_ranges fuel u (k.inside (l.inside v))
              (omega (arith, h, l.same_size, l.later, k.same_size, k.later)))
            λ rs w m. Moves-pure _ w))

  fuel_for-enough : (s : Iface x) → size s < at s + fuel_for x s
  fuel_for-enough s = omega arith

  Moves-read_all_port_ranges : (s : Iface x) → at s ≤ size s → Moves 0 (read_all_port_ranges x) s
  unfolding read_all_port_ranges
  Moves-read_all_port_ranges s v =
      let p = Moves-read_port_ranges _ s v (fuel_for-enough s) in
      record { halts = p.halts; moves = p.moves }

  Moves-read_specs :
      (fuel : ℕ) (s : Iface x)
      → at s ≤ size s
      → size s < at s + fuel
      → Moves 0 (read_specs x fuel) s
  unfolding read_specs
  Moves-read_specs zero s v h = absurd (omega (arith, v, h))
  Moves-read_specs (suc fuel) s v h = Moves-any (
      Moves-bind (Moves-read 4 s) λ a t l. Moves-bind (Moves-read_int t) λ b u k.
        Moves-bind (Moves-read_all_port_ranges u (k.inside (l.inside v))) λ rs w m.
          Moves-if (be32 a == terminator) (Moves-pure _ w) (
            Moves-bind
              (Moves-read_specs fuel w (m.inside (k.inside (l.inside v))) (
                omega (arith, h, l.same_size, l.later, k.same_size, k.later, m.same_size, m.later)))
              λ r y n. Moves-pure _ y))

  Moves-read_points :
      (fuel : ℕ) (s : Iface x)
      → at s ≤ size s
      → size s < at s + fuel
      → Moves 0 (read_points x fuel) s
  unfolding read_points
  Moves-read_points zero s v h = absurd (omega (arith, v, h))
  Moves-read_points (suc fuel) s v h = Moves-any (
      Moves-bind (Moves-read_prob s) λ p t l. Moves-bind (Moves-read_int t) λ d u k.
        Moves-if (x.lt p (one_prob x))
          (Moves-bind
            (Moves-read_points fuel u (k.inside (l.inside v))
              (omega (arith, h, l.same_size, l.later, k.same_size, k.later)))
            λ r w m. Moves-pure _ w)
          (Moves-pure _ u))

  Moves-read_chain : (s : Iface x) → Moves 0 (read_chain x) s
  unfolding read_chain
  Moves-read_chain s = Moves-any (
      Moves-bind (Moves-read_int s) λ w t l.
        Moves-get-bind (λ s. if w == 2 then pure s.last_chain else stop exits)
          (Moves-if (w == 2) (Moves-pure _ t) (Moves-exits t)))

  Moves-read_state : (s : Iface x) → Moves 0 (read_state x) s
  unfolding read_state
  Moves-read_state s = Moves-any (
      Moves-bind (Moves-read_int s) λ w t l.
        Moves-get-bind
          (λ r.
            if w == 0
            then read_int x >>= (λ n. pure (pos n))
            else if w == 2
            then or_fault r.last_state
            else stop exits)
          (Moves-if (w == 0) (Moves-any (Moves-bind (Moves-read_int t) λ n u k. Moves-pure _ u))
            (Moves-if (w == 2) (Moves-or_fault _ t) (Moves-exits t))))

  by_int :
      {A : Type 0} (k : ℕ → M x A) (s : Iface x)
      → ((n : ℕ) (t : Iface x) → Moves 0 (k n) t)
      → Moves 0 (read_int x >>= k) s
  by_int k s h = Moves-any (Moves-bind (Moves-read_int s) λ n t l. h n t)

  Moves-read_param_type :
      (t : ParamType) (s : Iface x) → at s ≤ size s → Moves 0 (read_param_type x t) s
  unfolding read_param_type read_string read_ip_filter
  Moves-read_param_type ParamType.string s v = Moves-any (
      Moves-bind (Moves-bind (Moves-read id_len s) λ b t l. Moves-pure _ t) λ n t l. Moves-pure _ t)
  Moves-read_param_type ParamType.chain s v =
      Moves-bind (Moves-read_chain s) λ n t l. Moves-pure _ t
  Moves-read_param_type ParamType.state s v =
      Moves-bind (Moves-read_state s) λ n t l. Moves-pure _ t
  Moves-read_param_type ParamType.prob s v =
      Moves-any (Moves-bind (Moves-read_prob s) λ n t l. Moves-pure _ t)
  Moves-read_param_type ParamType.ip_filter s v =
      Moves-bind
        (Moves-get-bind (λ r. read_specs x (fuel_for x r) >>= λ f. pure (filter_of x f))
          (Moves-bind (Moves-read_specs _ s v (fuel_for-enough s)) λ f t l. Moves-pure _ t))
        λ n t l. Moves-pure _ t
  Moves-read_param_type ParamType.split_linear_points s v =
      Moves-get-bind (λ r. read_points x (fuel_for x r) >>= λ f. pure (Param.split_linear_points f))
        (Moves-bind (Moves-read_points _ s v (fuel_for-enough s)) λ f t l. Moves-pure _ t)
  Moves-read_param_type _ s v = by_int _ s λ n t. Moves-pure _ t

  -- On a valid input queue no reader of a parameter runs out of fuel, for any type of parameter:
  -- the fuel that the loops over filters, port ranges and points are given, one more than the
  -- length of the text, is enough.
  pub read_param_type-halts :
      (t : ParamType) (s : Iface x)
      → IsValid s.text_queue_in
      → (read_param_type x t s).0 ≢ out_of_fuel
  read_param_type-halts t s v = (Moves-read_param_type t s v.position).halts
