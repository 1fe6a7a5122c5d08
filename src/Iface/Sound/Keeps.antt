-- ===== src/Iface/Sound/Keeps.antt =====
-- Code that keeps the state of the interface well formed.
use ip_noise.TextQueue.Out.Laws as OutLaws
use mathlib.Core.Path.{subst}
use ip_noise.Common.{
  ◌≡◌, refl, sym, ap, ◌∙◌, Option, none, some, List, length, get_elem?, length-set,
}
use ip_noise.Common.Int.{ℤ, pos, negsuc}
use ip_noise.Iface.Handlers.Access.{
  Reply, ok_reply, out_of_range, guarded_get, index_of, get_chain, put_chain, with_chain,
  with_state, change_chain, put_state, change_state,
}
use ip_noise.Iface.Monad.{
  Iface, Outcome, done, failed, exits, faults, out_of_fuel, M, proceed, ◌>>=◌, ◌>>◌, pure, stop,
  or_fault,
}
use ip_noise.Iface.Sound.{AllOf, ChainFits, DataFits, IsSound, AllOf-get, AllOf-set}
use ip_noise.Iface.Transact.ReadOnly.{Reads}
use ip_noise.Model.{Externals, State, Chain}

-- However the call ends, a well-formed state is left well formed.
pub record Keeps {x : Externals} {A : Type 0} (m : M x A) : Type 0 where
  pub kept : (s : Iface x) → IsSound x s → IsSound x (m s).1

module _ {x : Externals} {A : Type 0} where
  pub Keeps-stop : (o : Outcome A) → Keeps {x = x} (stop o)
  Keeps-stop o = record { kept = λ s h. h }

  pub Keeps-pure : (a : A) → Keeps {x = x} (pure a)
  Keeps-pure a = record { kept = λ s h. h }

  pub Keeps-or_fault : (o : Option A) → Keeps {x = x} (or_fault o)
  Keeps-or_fault none = record { kept = λ s h. h }
  Keeps-or_fault (some a) = record { kept = λ s h. h }

  -- A reader changes neither the data nor the output.
  pub Reads-Keeps : {m : M x A} → Reads m → Keeps m
  Reads-Keeps {m} r = record {
    kept = λ s h.
        let p = r.only s h.input in
        record {
          input = p.valid;
          output =
              subst (λ (t : Iface x). OutLaws.IsValid t.text_queue_out) (sym p.same_rest) h.output;
          data_copy = subst (λ (t : Iface x). DataFits x t.data_copy) (sym p.same_rest) h.data_copy;
        };
  }

module _ {x : Externals} {A B : Type 0} where
  proceed-kept :
      (k : A → M x B) (o : Outcome A) (t : Iface x)
      → ((a : A) → o ≡ done a → Keeps (k a))
      → IsSound x t
      → IsSound x (proceed o t k).1
  proceed-kept k (done a) t h v = (h a refl).kept t v
  proceed-kept k (failed e) t h v = v
  proceed-kept k exits t h v = v
  proceed-kept k faults t h v = v
  proceed-kept k out_of_fuel t h v = v

  pub Keeps-bind : {m : M x A} {k : A → M x B} → Keeps m → ((a : A) → Keeps (k a)) → Keeps (m >>= k)
  Keeps-bind {m} {k} p h = record {
    kept = λ s v. proceed-kept k (m s).0 (m s).1 (λ a e. h a) (p.kept s v);
  }

  -- The value of an expression that may fault can be used.
  pub Keeps-value :
      {k : A → M x B} (o : Option A)
      → ((a : A) → o ≡ some a → Keeps (k a))
      → Keeps (or_fault o >>= k)
  Keeps-value none h = record { kept = λ s v. v }
  Keeps-value (some a) h = record { kept = λ s v. (h a refl).kept s v }

  pub Keeps-elim :
      {n : M x B} {k : A → M x B} (o : Option A)
      → Keeps n
      → ((a : A) → o ≡ some a → Keeps (k a))
      → Keeps (elim o [ none ↦ n | some a ↦ k a ])
  Keeps-elim none p h = p
  Keeps-elim (some a) p h = h a refl

-- An entry that a guard let through is one of the list.
guarded-AllOf :
    {A : Type 0} (P : A → Type 0) (xs : List A) (i : ℤ) {a : A}
    → AllOf P xs
    → guarded_get xs i ≡ some (some a)
    → P a
unfolding guarded_get
guarded-AllOf P xs (pos i) {a} h e = let q : get_elem? xs i ≡ some a = cc in AllOf-get P xs i h q
guarded-AllOf P xs (negsuc i) h e = cc

module _ (x : Externals) where
  pub with_chain-Keeps :
      (i : ℤ) {rest : Chain x → M x Reply}
      → ((c : Chain x) → ChainFits x c → Keeps (rest c))
      → Keeps (with_chain x i rest)
  unfolding with_chain get_chain
  with_chain-Keeps i {rest} h = record {
    kept = λ s v.
        (Keeps-value (guarded_get s.data_copy.chains i) λ found e.
            Keeps-elim found (Keeps-pure out_of_range) λ c e'. h c (
              guarded-AllOf (ChainFits x) s.data_copy.chains i v.data_copy.chains
                (e ∙ ap some e'))).kept
          s v;
  }

  pub with_state-Keeps :
      (i j : ℤ) {rest : Chain x → State x → M x Reply}
      → ((c : Chain x) (s : State x)
          → ChainFits x c
          → length s.move_tos ≡ length c.states
          → Keeps (rest c s))
      → Keeps (with_state x i j rest)
  unfolding with_state
  with_state-Keeps i j h = with_chain-Keeps i λ c f. Keeps-value (guarded_get c.states j) λ found e.
      Keeps-elim found (Keeps-pure out_of_range) λ s e'. h c s f (
        guarded-AllOf (λ s. length s.move_tos ≡ length c.states) c.states j f.moves
          (e ∙ ap some e'))

  pub put_chain-Keeps : (i : ℤ) (c : Chain x) → ChainFits x c → Keeps (put_chain x i c)
  unfolding put_chain
  put_chain-Keeps i c f = record {
    kept = λ s v. record {
      input = v.input;
      output = v.output;
      data_copy = record {
        capacity = rw (length-set s.data_copy.chains (index_of i) c) v.data_copy.capacity;
        chains = AllOf-set (ChainFits x) s.data_copy.chains (index_of i) v.data_copy.chains f;
      };
    };
  }

  pub change_chain-Keeps :
      (i : ℤ) (f : Chain x → Chain x)
      → ((c : Chain x) → ChainFits x c → ChainFits x (f c))
      → Keeps (change_chain x i f)
  unfolding change_chain
  change_chain-Keeps i f h =
      with_chain-Keeps i
        λ c v. Keeps-bind (put_chain-Keeps i (f c) (h c v)) λ u. Keeps-pure ok_reply

  pub put_state-Keeps :
      (i j : ℤ) (c : Chain x) (s : State x)
      → ChainFits x c
      → length s.move_tos ≡ length c.states
      → Keeps (put_state x i j c s >> pure ok_reply)
  unfolding put_state
  put_state-Keeps i j c s f e =
      let l = length-set c.states (index_of j) s in
      Keeps-bind
        (put_chain-Keeps i _ (record {
          capacity = rw l f.capacity;
          moves = rw l (
              AllOf-set (λ s. length s.move_tos ≡ length c.states) c.states (index_of j) f.moves e);
          protocols = f.protocols;
          tos = f.tos;
        }))
        λ u. Keeps-pure ok_reply

  pub change_state-Keeps :
      (i j : ℤ) (f : State x → State x)
      → ((s : State x) → length (f s).move_tos ≡ length s.move_tos)
      → Keeps (change_state x i j f)
  unfolding change_state
  change_state-Keeps i j f h =
      with_state-Keeps i j λ c s v e. put_state-Keeps i j c (f s) v (h s ∙ e)
