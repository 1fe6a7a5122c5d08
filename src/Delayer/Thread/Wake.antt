-- ===== src/Delayer/Thread/Wake.antt =====
-- No wake-up is lost: the thread never waits past the time of a message.
use mathlib.Core.List.{Mem, not-mem-nil}
use mathlib.Core.Path.{subst}
use native.Mathlib.Decide.{ℕ_discrete}
use ip_noise.Common.{
  ℕ, suc, ◌<◌, ◌≡◌, refl, ◌∙◌, Bool, false, ◌||◌, Option, none, some, List, arith,
}
use ip_noise.Common.Fault.{>>=-eq-some}
use ip_noise.Common.Int.{ℤ}
use ip_noise.Delayer.{Delayed, delayer_alloc, delay_packet, release, deadline}
use ip_noise.Delayer.Delay.{Covers, delay_packet-Delays}
use ip_noise.Delayer.Order.{IsDelayer, pop-Earliest}
use ip_noise.Delayer.Release.{release-Releases}
use ip_noise.Delayer.Thread.{Phase, System, hears, Turn, Step, init, Reached}
use ip_noise.Model.{Timeval}
use ip_noise.PQueue.{PQueue}
use ip_noise.PQueue.Heap.{not_empty, empty}
use ip_noise.PQueue.Items.{items}
use ip_noise.Time.{add_delay}

-- The wait is signalled, or short enough.
pub record IsSafe (s : System) : Type 0 where
  pub valid : IsDelayer s.pq
  pub covered :
      (w : Option Timeval) → s.phase ≡ Phase.waiting w → s.signalled ≡ false → Covers w s.pq

-- The deadline is the time of the first message.
pub deadline-Covers :
    (pq : PQueue Delayed)
    → IsDelayer pq
    → (w : Option Timeval) × (deadline pq ≡ some w) × Covers w pq
unfolding deadline items
deadline-Covers pq v = elim (ℕ_discrete pq.current_size 0) [
  | yes z ↦ (
    none,
    rw (empty pq z) refl,
    λ a i. not-mem-nil (subst (λ n. Mem a (items pq.elements n)) z i),
  )
  | no nz ↦
      let p : 0 < pq.current_size = ground arith in
      let e = pop-Earliest pq v p in (some e.taken.tv, rw (e.peek, not_empty pq p) refl, e.first)
]

Covers-deadline :
    (pq : PQueue Delayed) (w : Option Timeval) → IsDelayer pq → deadline pq ≡ some w → Covers w pq
Covers-deadline pq w v h =
    let (d, e, c) = deadline-Covers pq v in let same : d ≡ w = cc in subst (λ x. Covers x pq) same c

-- What a wait for the queue as it is makes of the system.
wait-IsSafe :
    (s : System) {w : Option Timeval}
    → IsDelayer s.pq
    → s.phase ≡ Phase.waiting w
    → deadline s.pq ≡ some w
    → IsSafe s
wait-IsSafe s {w} v p h = record {
  valid = v;
  covered = λ x q f.
      let same : w ≡ x = cc in subst (λ y. Covers y s.pq) same (Covers-deadline s.pq w v h);
}

check-IsSafe : (s : System) → IsDelayer s.pq → s.phase ≡ Phase.checking → IsSafe s
check-IsSafe s v p = record { valid = v; covered = λ w q f. cc }

release-IsDelayer :
    (now : Timeval) (pq : PQueue Delayed) {l : List Delayed} {r : PQueue Delayed}
    → IsDelayer pq
    → release (suc pq.current_size) now pq ≡ some (l, r)
    → IsDelayer r
release-IsDelayer now pq {l} {r} v h =
    let x = release-Releases now pq v in
    let y = x.runs in let same : x.after ≡ r = cc in subst IsDelayer same x.valid

Turn-IsSafe : {s t : System} → IsSafe s → Turn s t → IsSafe t
Turn-IsSafe {s} i (Turn.check p h d) = wait-IsSafe _ (release-IsDelayer s.now s.pq i.valid h) refl d
Turn-IsSafe i (Turn.woken p g d) = wait-IsSafe _ i.valid refl d
Turn-IsSafe i (Turn.timed_out p d) = check-IsSafe _ i.valid refl

-- A call that succeeds had a time that it could compute.
pub delay_packet-later :
    (pq : PQueue Delayed) (m : ℕ) (tv : Timeval) (delay_len : ℤ) {r : Bool × PQueue Delayed}
    → delay_packet pq m tv delay_len ≡ some r
    → (later : Timeval) × (add_delay tv delay_len ≡ some later)
unfolding delay_packet
delay_packet-later pq m tv delay_len h =
    let (later, e, _) = >>=-eq-some (add_delay tv delay_len) _ h in (later, e)

unheard :
    (p : Phase) (b signal : Bool) {w : Option Timeval}
    → p ≡ Phase.waiting w
    → (b || hears p signal) ≡ false
    → (b ≡ false) × (signal ≡ false)
unheard Phase.checking b signal p h = cc
unheard (Phase.waiting w) b signal p h = ground arith

delay-IsSafe :
    (s : System) (m : ℕ) (tv : Timeval) (delay_len : ℤ) {signal : Bool} {r : PQueue Delayed}
    → IsSafe s
    → delay_packet s.pq m tv delay_len ≡ some (signal, r)
    → IsSafe (record s { pq = r; signalled = s.signalled || hears s.phase signal })
delay-IsSafe s m tv delay_len {signal} {r} i h =
    let (later, e) = delay_packet-later s.pq m tv delay_len h in
    let x = delay_packet-Delays s.pq m tv delay_len i.valid e in
    let y = x.runs in
    let queue : x.after ≡ r = cc in
    let signals : x.signalled ≡ signal = cc in
    record {
      valid = subst IsDelayer queue x.valid;
      covered = λ w p f.
          let (f1, f2) = unheard s.phase s.signalled signal p f in
          subst (Covers w) queue (x.covered w (i.covered w p f1) (signals ∙ f2));
    }

Step-IsSafe : {s t : System} → IsSafe s → Step s t → IsSafe t
Step-IsSafe i (Step.turn t) = Turn-IsSafe i t
Step-IsSafe i (Step.spurious p d) = wait-IsSafe _ i.valid refl d
Step-IsSafe i (Step.refused p d) = check-IsSafe _ i.valid refl
Step-IsSafe {s} i (Step.delay m tv delay_len h) = delay-IsSafe s m tv delay_len i h
Step-IsSafe i (Step.tick t l) = record { valid = i.valid; covered = i.covered }

init-IsSafe : (garbage : ℕ → Delayed) (start : Timeval) → IsSafe (init garbage start)
unfolding delayer_alloc
init-IsSafe garbage start =
    check-IsSafe (init garbage start)
      (record {
        valid = record { inside = omega arith; heap = λ c p l. absurd (omega arith) };
        earliest_first = refl;
      })
      refl

pub Reached-IsSafe :
    {garbage : ℕ → Delayed} {start : Timeval} {s : System} → Reached garbage start s → IsSafe s
Reached-IsSafe Reached.begin = init-IsSafe _ _
Reached-IsSafe (Reached.later r t) = Step-IsSafe (Reached-IsSafe r) t

-- In every state that the delayer's thread, the callers of delay_packet and the clock can reach,
-- if the thread waits and was not signalled, its wait has a limit that is not after the time of
-- any message of the queue; a wait without a limit finds the queue empty.
pub Reached-Covers :
    {garbage : ℕ → Delayed} {start : Timeval} {s : System} {w : Option Timeval}
    → Reached garbage start s
    → s.phase ≡ Phase.waiting w
    → s.signalled ≡ false
    → Covers w s.pq
Reached-Covers {w = w} r p f = (Reached-IsSafe r).covered w p f
