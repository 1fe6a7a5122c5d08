-- ===== src/Iface/Monad.antt =====
-- The state of the interface, ip_noise_arbitrator_iface_t of C/arbitrator/iface.h, and code that runs
-- on it.
use ip_noise.Common.{Bool, Option, none, some}
use ip_noise.Common.Int.{ℤ}
use ip_noise.Model.{Externals, Data}
use ip_noise.TextQueue.In.{ReadError, TextQueueIn}
use ip_noise.TextQueue.Out.{TextQueueOut}

-- The configuration `data_copy` being built, and the queues. `none` is an indeterminate value:
-- ip_noise_arbitrator_iface_alloc leaves `last_state` unset.
pub record Iface (x : Externals) : Type 0 where
  pub data_copy : Data x
  pub continue : Bool
  pub last_chain : ℤ
  pub last_state : Option ℤ
  pub text_queue_in : TextQueueIn
  pub text_queue_out : TextQueueOut

-- How a call ends: it returns a value, or the error of a read; the process exits; the behaviour is
-- undefined; or the fuel of the model runs out.
pub data Outcome (A : Type 0) : Type 0 where
  done : A → Outcome A
  failed : ReadError → Outcome A
  exits faults out_of_fuel : Outcome A

abbrev pub M : Externals → Type 0 → Type 0
M x A = Iface x → Outcome A × Iface x

abbrev pub proceed :
    {x : Externals} {A B : Type 0} → Outcome A → Iface x → (A → M x B) → Outcome B × Iface x
proceed (done a) s k = k a s
proceed (failed e) s k = (failed e, s)
proceed exits s k = (exits, s)
proceed faults s k = (faults, s)
proceed out_of_fuel s k = (out_of_fuel, s)

infixl 5 ◌>>=◌ ◌>>◌
abbrev pub ◌>>=◌ : {x : Externals} {A B : Type 0} → M x A → (A → M x B) → M x B
◌>>=◌ m k s = proceed (m s).0 (m s).1 k

abbrev pub ◌>>◌ : {x : Externals} {B : Type 0} → M x (Unit {0}) → M x B → M x B
m >> k = m >>= λ _. k

abbrev pub pure : {x : Externals} {A : Type 0} → A → M x A
pure a s = (done a, s)

abbrev pub stop : {x : Externals} {A : Type 0} → Outcome A → M x A
stop o s = (o, s)

abbrev pub get : {x : Externals} → M x (Iface x)
get s = (done s, s)

abbrev pub put : {x : Externals} → Iface x → M x (Unit {0})
put s' s = (done tt, s')

-- A value, or undefined behaviour.
abbrev pub or_fault : {x : Externals} {A : Type 0} → Option A → M x A
or_fault none s = (faults, s)
or_fault (some a) s = (done a, s)
