-- ===== src/Iface/Read/Moves.antt =====
-- How far a call moves the read position of the queue, and that it returns.
use ip_noise.Common.{
  ℕ, ◌+◌, ◌≤◌, ◌≡◌, refl, ◌∙◌, ◌≢◌, Bool, true, false, Option, none, some, arith, if◌then◌else◌,
}
use ip_noise.Iface.Monad.{
  Iface, Outcome, done, failed, exits, faults, out_of_fuel, M, proceed, ◌>>=◌, pure, stop, get,
  or_fault,
}
use ip_noise.Model.{Externals}

module _ {x : Externals} where
  abbrev pub at : Iface x → ℕ
  at s = s.text_queue_in.ptr_offset

  abbrev pub size : Iface x → ℕ
  size s = s.text_queue_in.length

  -- From `s`, at least `c` bytes are read on the way to `t`.
  pub record Later (c : ℕ) (s t : Iface x) : Type 0 where
    pub same_size : size t ≡ size s
    pub later : at s + c ≤ at t
    pub inside : at s ≤ size s → at t ≤ size t

  module _ {A : Type 0} where
    -- The call returns without running out of fuel, and has read `c` bytes if it gives a value.
    pub record Moves (c : ℕ) (m : M x A) (s : Iface x) : Type 0 where
      pub halts : (m s).0 ≢ out_of_fuel
      pub moves : (a : A) → (m s).0 ≡ done a → Later c s (m s).1

    pub Moves-pure : (a : A) (s : Iface x) → Moves 0 (pure a) s
    Moves-pure a s = record {
      halts = λ h. cc;
      moves = λ b e. record { same_size = refl; later = omega arith; inside = λ h. h };
    }

    pub Moves-or_fault : (o : Option A) (s : Iface x) → Moves 0 (or_fault o) s
    Moves-or_fault none s = record { halts = λ h. cc; moves = λ b e. cc }
    Moves-or_fault (some a) s = Moves-pure a s

    pub Moves-exits : (s : Iface x) → Moves 0 (stop exits) s
    Moves-exits s = record { halts = λ h. cc; moves = λ b e. cc }

    pub Moves-if :
        {c : ℕ} {m n : M x A} {s : Iface x} (b : Bool)
        → Moves c m s
        → Moves c n s
        → Moves c (if b then m else n) s
    Moves-if true p q = p
    Moves-if false p q = q

  module _ {A B : Type 0} where
    pub Moves-proceed :
        (c d : ℕ) (k : A → M x B) (s t : Iface x) (o : Outcome A)
        → o ≢ out_of_fuel
        → ((a : A) → o ≡ done a → Later c s t × Moves d (k a) t)
        → Moves (c + d) (λ _. proceed o t k) s
    Moves-proceed c d k s t (done a) n h = record {
      halts = (h a refl).1.halts;
      moves = λ b e.
          let p = (h a refl).0 in
          let q = (h a refl).1.moves b e in
          record {
            same_size = q.same_size ∙ p.same_size;
            later = omega (arith, p.later, q.later);
            inside = λ i. q.inside (p.inside i);
          };
    }
    Moves-proceed c d k s t (failed d') n h = record { halts = λ h. cc; moves = λ b e. cc }
    Moves-proceed c d k s t exits n h = record { halts = λ h. cc; moves = λ b e. cc }
    Moves-proceed c d k s t faults n h = record { halts = λ h. cc; moves = λ b e. cc }
    Moves-proceed c d k s t out_of_fuel n h = absurd (n refl)

    pub Moves-bind :
        {c d : ℕ} {m : M x A} {k : A → M x B} {s : Iface x}
        → Moves c m s
        → ((a : A) (t : Iface x) → Later c s t → Moves d (k a) t)
        → Moves (c + d) (m >>= k) s
    Moves-bind {c} {d} {m} {k} {s} p h =
        let r =
          Moves-proceed c d k s (m s).1 (m s).0 p.halts
            λ a e. (p.moves a e, h a (m s).1 (p.moves a e)) in
        record { halts = r.halts; moves = r.moves }

  pub Moves-get : (s : Iface x) → Moves 0 get s
  Moves-get s = record {
    halts = λ h. cc;
    moves = λ b e. record { same_size = refl; later = omega arith; inside = λ h. h };
  }

  pub Moves-get-bind :
      {B : Type 0} {c : ℕ} (k : Iface x → M x B) {s : Iface x}
      → Moves c (k s) s
      → Moves c (get >>= k) s
  Moves-get-bind k p = record { halts = p.halts; moves = p.moves }

  pub Moves-any : {A : Type 0} {c : ℕ} {m : M x A} {s : Iface x} → Moves c m s → Moves 0 m s
  Moves-any p = record {
    halts = p.halts;
    moves = λ b e. record {
      same_size = (p.moves b e).same_size;
      later = let l = (p.moves b e).later in omega arith;
      inside = (p.moves b e).inside;
    };
  }
