-- ===== src/Iface/Transact/Atomic.antt =====
-- A transaction whose input ends early changes nothing.
use ip_noise.Common.{◌≡◌, ◌≢◌, Option, none, some, arith}
use ip_noise.Common.Int.{ℤ}
use ip_noise.Iface.Handlers.Access.{
  Reply, ok_reply, get_chain, put_chain, with_chain, with_state, change_chain, change_filter,
  put_state, change_state,
}
use ip_noise.Iface.Monad.{
  Iface, Outcome, done, failed, exits, faults, out_of_fuel, M, proceed, ◌>>=◌, ◌>>◌, pure, stop,
  get, put, or_fault,
}
use ip_noise.Iface.Transact.ReadOnly.{
  OnlyRead, OnlyRead-trans, Reads, Reads-get, Reads-or_fault, Reads-bind,
}
use ip_noise.Model.{Externals, ChainFilter, State, Chain}
use ip_noise.TextQueue.In.{ReadError}
use ip_noise.TextQueue.In.Laws.{IsValid}

-- A call that ends with the error of a read has only read.
pub record IsAtomic {x : Externals} {A : Type 0} (m : M x A) : Type 0 where
  pub safe :
      (s : Iface x) (e : ReadError)
      → IsValid s.text_queue_in
      → (m s).0 ≡ failed e
      → OnlyRead s (m s).1

-- A call that does not end with such an error.
pub record Never {x : Externals} {A : Type 0} (m : M x A) : Type 0 where
  pub quiet : (s : Iface x) (e : ReadError) → (m s).0 ≢ failed e

module _ {x : Externals} {A : Type 0} where
  pub Reads-IsAtomic : {m : M x A} → Reads m → IsAtomic m
  Reads-IsAtomic r = record { safe = λ s e v h. r.only s v }

  pub Never-IsAtomic : {m : M x A} → Never m → IsAtomic m
  Never-IsAtomic r = record { safe = λ s e v h. absurd (r.quiet s e h) }

  pub Never-pure : (a : A) → Never {x = x} (pure a)
  Never-pure a = record { quiet = λ s e h. cc }

  pub Never-faults : Never {x = x} {A = A} (stop faults)
  Never-faults = record { quiet = λ s e h. cc }

  pub Never-or_fault : (o : Option A) → Never {x = x} (or_fault o)
  Never-or_fault none = record { quiet = λ s e h. cc }
  Never-or_fault (some a) = record { quiet = λ s e h. cc }

pub Never-get : {x : Externals} → Never {x = x} get
Never-get = record { quiet = λ s e h. cc }

pub Never-put : {x : Externals} (t : Iface x) → Never (put t)
Never-put t = record { quiet = λ s e h. cc }

module _ {x : Externals} {A B : Type 0} where
  proceed-quiet :
      (k : A → M x B) (o : Outcome A) (t : Iface x) (e : ReadError)
      → ((a : A) → Never (k a))
      → o ≢ failed e
      → (proceed o t k).0 ≢ failed e
  proceed-quiet k (done a) t e h n = (h a).quiet t e
  proceed-quiet k (failed d) t e h n = λ q. n (ground arith)
  proceed-quiet k exits t e h n = λ q. cc
  proceed-quiet k faults t e h n = λ q. cc
  proceed-quiet k out_of_fuel t e h n = λ q. cc

  pub Never-bind : {m : M x A} {k : A → M x B} → Never m → ((a : A) → Never (k a)) → Never (m >>= k)
  Never-bind {m} {k} p h = record {
    quiet = λ s e. proceed-quiet k (m s).0 (m s).1 e h (p.quiet s e);
  }

  proceed-safe :
      (s : Iface x) (k : A → M x B) (o : Outcome A) (t : Iface x) (e : ReadError)
      → ((a : A) → IsAtomic (k a))
      → OnlyRead s t
      → (proceed o t k).0 ≡ failed e
      → OnlyRead s (proceed o t k).1
  proceed-safe s k (done a) t e h p q = OnlyRead-trans p ((h a).safe t e p.valid q)
  proceed-safe s k (failed d) t e h p q = p
  proceed-safe s k exits t e h p q = p
  proceed-safe s k faults t e h p q = p
  proceed-safe s k out_of_fuel t e h p q = p

  -- Reading comes first,
  pub IsAtomic-bind :
      {m : M x A} {k : A → M x B} → Reads m → ((a : A) → IsAtomic (k a)) → IsAtomic (m >>= k)
  IsAtomic-bind {m} {k} p h = record {
    safe = λ s e v q. proceed-safe s k (m s).0 (m s).1 e h (p.only s v) q;
  }

  proceed-last :
      (s : Iface x) (k : A → M x B) (o : Outcome A) (t : Iface x) (e : ReadError)
      → ((a : A) → Never (k a))
      → (o ≡ failed e → OnlyRead s t)
      → (proceed o t k).0 ≡ failed e
      → OnlyRead s (proceed o t k).1
  proceed-last s k (done a) t e h p q = absurd ((h a).quiet t e q)
  proceed-last s k (failed d) t e h p q = p (ground arith)
  proceed-last s k exits t e h p q = cc
  proceed-last s k faults t e h p q = cc
  proceed-last s k out_of_fuel t e h p q = cc

  -- and what cannot fail comes last.
  pub IsAtomic-last :
      {m : M x A} {k : A → M x B} → IsAtomic m → ((a : A) → Never (k a)) → IsAtomic (m >>= k)
  IsAtomic-last {m} {k} p h = record {
    safe = λ s e v q. proceed-last s k (m s).0 (m s).1 e h (p.safe s e v) q;
  }

  pub IsAtomic-elim :
      {n : M x B} {k : A → M x B} (o : Option A)
      → IsAtomic n
      → ((a : A) → IsAtomic (k a))
      → IsAtomic (elim o [ none ↦ n | some a ↦ k a ])
  IsAtomic-elim none p h = p
  IsAtomic-elim (some a) p h = h a

module _ (x : Externals) where
  pub reply-IsAtomic : (r : Reply) → IsAtomic {x = x} (pure r)
  reply-IsAtomic r = Never-IsAtomic (Never-pure r)

  pub with_chain-IsAtomic :
      (i : ℤ) {rest : Chain x → M x Reply}
      → ((c : Chain x) → IsAtomic (rest c))
      → IsAtomic (with_chain x i rest)
  unfolding with_chain get_chain
  with_chain-IsAtomic i h =
      IsAtomic-bind (Reads-bind Reads-get λ s. Reads-or_fault _)
        λ found. IsAtomic-elim found (reply-IsAtomic _) h

  pub with_state-IsAtomic :
      (i j : ℤ) {rest : Chain x → State x → M x Reply}
      → ((c : Chain x) (s : State x) → IsAtomic (rest c s))
      → IsAtomic (with_state x i j rest)
  unfolding with_state
  with_state-IsAtomic i j h =
      with_chain-IsAtomic i
        λ c. IsAtomic-bind (Reads-or_fault _) λ found. IsAtomic-elim found (reply-IsAtomic _) (h c)

  pub put_chain-Never : (i : ℤ) (c : Chain x) → Never (put_chain x i c)
  unfolding put_chain
  put_chain-Never i c = Never-bind Never-get λ s. Never-put _

  pub change_chain-IsAtomic : (i : ℤ) (f : Chain x → Chain x) → IsAtomic (change_chain x i f)
  unfolding change_chain
  change_chain-IsAtomic i f =
      with_chain-IsAtomic i
        λ c. Never-IsAtomic (Never-bind (put_chain-Never i (f c)) λ u. Never-pure ok_reply)

  pub change_filter-IsAtomic :
      (i : ℤ) (f : ChainFilter → ChainFilter) → IsAtomic (change_filter x i f)
  unfolding change_filter
  change_filter-IsAtomic i f = change_chain-IsAtomic i _

  pub put_state-reply-Never :
      (i j : ℤ) (c : Chain x) (s : State x) → Never (put_state x i j c s >> pure ok_reply)
  unfolding put_state
  put_state-reply-Never i j c s = Never-bind (put_chain-Never i _) λ u. Never-pure ok_reply

  pub change_state-IsAtomic : (i j : ℤ) (f : State x → State x) → IsAtomic (change_state x i j f)
  unfolding change_state
  change_state-IsAtomic i j f =
      with_state-IsAtomic i j λ c s. Never-IsAtomic (put_state-reply-Never i j c _)
