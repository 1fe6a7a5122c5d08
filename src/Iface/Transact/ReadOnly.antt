-- ===== src/Iface/Transact/ReadOnly.antt =====
-- Code that only reads from the connection: the readers of parameters.
use ip_noise.TextQueue.In.Laws
use mathlib.Core.List.{append_assoc}
use mathlib.Core.Path.{ap₂}
use ip_noise.Common.{
  ℕ, zero, suc, ◌≡◌, refl, sym, ap, ◌∙◌, ◌⊎◌, Bool, true, false, Option, none, some, List, ◌++◌,
  ltb, ◌==◌, if◌then◌else◌,
}
use ip_noise.Iface.Monad.{
  Iface, Outcome, done, failed, exits, faults, out_of_fuel, M, proceed, ◌>>=◌, pure, stop, get,
  or_fault,
}
use ip_noise.Iface.Read.{
  ParamType, be32, terminator, read, read_int, read_uint16, read_string, read_chain, read_state,
  read_prob, read_port_ranges, read_all_port_ranges, read_specs, read_ip_filter, read_points,
  read_param_type,
}
use ip_noise.Iface.Read.Fuel.{read_answer}
use ip_noise.Model.{Externals}
use ip_noise.Model.Alloc.{one_prob}
use ip_noise.TextQueue.In.{ReadError, TextQueueIn}
use ip_noise.TextQueue.In.Laws.{
  taken, unread, IsValid, Holds, bytes_read, too_few, read_bytes-Reads,
}

-- The text of the queue, read or not.
abbrev pub text : TextQueueIn → List ℕ
text q = taken q ++ unread q

-- `t` is `s`, but for the read position.
pub record OnlyRead {x : Externals} (s t : Iface x) : Type 0 where
  pub valid : IsValid t.text_queue_in
  pub same_text : text t.text_queue_in ≡ text s.text_queue_in
  pub same_rest : t ≡ record s { text_queue_in = t.text_queue_in }

OnlyRead-refl : {x : Externals} (s : Iface x) → IsValid s.text_queue_in → OnlyRead s s
OnlyRead-refl s v = record { valid = v; same_text = refl; same_rest = refl }

pub OnlyRead-trans : {x : Externals} {s t u : Iface x} → OnlyRead s t → OnlyRead t u → OnlyRead s u
OnlyRead-trans {x} {s} {t} {u} p q = record {
  valid = q.valid;
  same_text = q.same_text ∙ p.same_text;
  same_rest =
      q.same_rest ∙ ap (λ (r : Iface x). record r { text_queue_in = u.text_queue_in }) p.same_rest;
}

-- However the call ends, it has only read.
pub record Reads {x : Externals} {A : Type 0} (m : M x A) : Type 0 where
  pub only : (s : Iface x) → IsValid s.text_queue_in → OnlyRead s (m s).1

pub Reads-stop : {x : Externals} {A : Type 0} (o : Outcome A) → Reads {x = x} (stop o)
Reads-stop o = record { only = λ s v. OnlyRead-refl s v }

pub Reads-pure : {x : Externals} {A : Type 0} (a : A) → Reads {x = x} (pure a)
Reads-pure a = record { only = λ s v. OnlyRead-refl s v }

pub Reads-get : {x : Externals} → Reads {x = x} get
Reads-get = record { only = λ s v. OnlyRead-refl s v }

pub Reads-or_fault : {x : Externals} {A : Type 0} (o : Option A) → Reads {x = x} (or_fault o)
Reads-or_fault none = record { only = λ s v. OnlyRead-refl s v }
Reads-or_fault (some a) = record { only = λ s v. OnlyRead-refl s v }

proceed-OnlyRead :
    {x : Externals} {A B : Type 0} (s : Iface x) (k : A → M x B) (o : Outcome A) (t : Iface x)
    → ((a : A) → Reads (k a))
    → OnlyRead s t
    → OnlyRead s (proceed o t k).1
proceed-OnlyRead s k (done a) t h p = OnlyRead-trans p ((h a).only t p.valid)
proceed-OnlyRead s k (failed e) t h p = p
proceed-OnlyRead s k exits t h p = p
proceed-OnlyRead s k faults t h p = p
proceed-OnlyRead s k out_of_fuel t h p = p

pub Reads-bind :
    {x : Externals} {A B : Type 0} {m : M x A} {k : A → M x B}
    → Reads m
    → ((a : A) → Reads (k a))
    → Reads (m >>= k)
Reads-bind {m} {k} p h = record {
  only = λ s v. proceed-OnlyRead s k (m s).0 (m s).1 h (p.only s v);
}

pub Reads-if :
    {x : Externals} {A : Type 0} {m n : M x A} (b : Bool)
    → Reads m
    → Reads n
    → Reads (if b then m else n)
Reads-if true p q = p
Reads-if false p q = q

abbrev pub holds_itself :
    {x : Externals} (s : Iface x)
    → IsValid s.text_queue_in
    → Holds s.text_queue_in (taken s.text_queue_in) (unread s.text_queue_in)
holds_itself s v = record { valid = v; taken_is = refl; unread_is = refl }

read-OnlyRead :
    {x : Externals} (s : Iface x) {v : IsValid s.text_queue_in} {n : ℕ}
    (r : ReadError ⊎ (List ℕ × TextQueueIn))
    → Laws.Reads s.text_queue_in (holds_itself s v) n r
    → OnlyRead s (read_answer s r).1
unfolding read_answer
read-OnlyRead s {v} r (Laws.Reads.too_few l) = OnlyRead-refl s v
read-OnlyRead s r (Laws.Reads.bytes_read {bytes} {rest} e l h) = record {
  valid = h.valid;
  same_text =
      ap₂ ◌++◌ h.taken_is h.unread_is
      ∙ append_assoc (taken s.text_queue_in) bytes rest
      ∙ ap (λ l. taken s.text_queue_in ++ l) (sym e);
  same_rest = refl;
}

module _ (x : Externals) where
  pub Reads-read : (n : ℕ) → Reads (read x n)
  unfolding read read_answer
  Reads-read n = record {
    only = λ s v. read-OnlyRead s _ (read_bytes-Reads s.text_queue_in (holds_itself s v) n);
  }

  pub Reads-read_int : Reads (read_int x)
  unfolding read_int
  Reads-read_int = Reads-bind (Reads-read 4) λ b. Reads-pure _

  Reads-read_uint16 : Reads (read_uint16 x)
  unfolding read_uint16
  Reads-read_uint16 = Reads-bind (Reads-read 2) λ b. Reads-pure _

  Reads-read_string : Reads (read_string x)
  unfolding read_string
  Reads-read_string = Reads-bind (Reads-read _) λ b. Reads-pure _

  Reads-read_chain : Reads (read_chain x)
  unfolding read_chain
  Reads-read_chain =
      Reads-bind Reads-read_int
        λ w. Reads-bind Reads-get λ s. Reads-if (w == 2) (Reads-pure _) (Reads-stop _)

  pub Reads-read_state : Reads (read_state x)
  unfolding read_state
  Reads-read_state = Reads-bind Reads-read_int λ w. Reads-bind Reads-get λ s.
      Reads-if (w == 0) (Reads-bind Reads-read_int λ n. Reads-pure _)
        (Reads-if (w == 2) (Reads-or_fault _) (Reads-stop _))

  pub Reads-read_prob : Reads (read_prob x)
  unfolding read_prob
  Reads-read_prob = Reads-bind (Reads-read 8) λ b. Reads-pure _

  Reads-read_port_ranges : (fuel : ℕ) → Reads (read_port_ranges x fuel)
  unfolding read_port_ranges
  Reads-read_port_ranges zero = Reads-stop _
  Reads-read_port_ranges (suc fuel) = Reads-bind Reads-read_uint16 λ a.
      Reads-bind Reads-read_uint16 λ b.
        Reads-if (ltb b a) (Reads-pure _)
          (Reads-bind (Reads-read_port_ranges fuel) λ rs. Reads-pure _)

  Reads-read_all_port_ranges : Reads (read_all_port_ranges x)
  unfolding read_all_port_ranges
  Reads-read_all_port_ranges = Reads-bind Reads-get λ s. Reads-read_port_ranges _

  Reads-read_specs : (fuel : ℕ) → Reads (read_specs x fuel)
  unfolding read_specs
  Reads-read_specs zero = Reads-stop _
  Reads-read_specs (suc fuel) = Reads-bind (Reads-read 4) λ b. Reads-bind Reads-read_int λ m.
      Reads-bind Reads-read_all_port_ranges λ rs.
        Reads-if (be32 b == terminator) (Reads-pure _)
          (Reads-bind (Reads-read_specs fuel) λ r. Reads-pure _)

  Reads-read_points : (fuel : ℕ) → Reads (read_points x fuel)
  unfolding read_points
  Reads-read_points zero = Reads-stop _
  Reads-read_points (suc fuel) = Reads-bind Reads-read_prob λ p. Reads-bind Reads-read_int λ d.
      Reads-if (x.lt p (one_prob x)) (Reads-bind (Reads-read_points fuel) λ r. Reads-pure _)
        (Reads-pure _)

  pub Reads-read_param_type : (t : ParamType) → Reads (read_param_type x t)
  unfolding read_param_type read_ip_filter
  Reads-read_param_type ParamType.string = Reads-bind Reads-read_string λ v. Reads-pure _
  Reads-read_param_type ParamType.chain = Reads-bind Reads-read_chain λ v. Reads-pure _
  Reads-read_param_type ParamType.state = Reads-bind Reads-read_state λ v. Reads-pure _
  Reads-read_param_type ParamType.prob = Reads-bind Reads-read_prob λ v. Reads-pure _
  Reads-read_param_type ParamType.ip_filter =
      Reads-bind (Reads-bind Reads-get λ s. Reads-bind (Reads-read_specs _) λ v. Reads-pure _)
        λ v. Reads-pure _
  Reads-read_param_type ParamType.split_linear_points =
      Reads-bind Reads-get λ s. Reads-bind (Reads-read_points _) λ v. Reads-pure _
  Reads-read_param_type _ = Reads-bind Reads-read_int λ v. Reads-pure _
