-- ===== src/Delayer/Thread/Progress.antt =====
-- Every message is released once its time has come, by steps of the thread alone.
use mathlib.Core.List.Perm
use mathlib.Core.Logic.Or
use Prim.Native.Nat.{Ordering}
use mathlib.Core.List.{Mem, Mem-prop, mem-append, mem-append_right}
use ip_noise.Common.{
  ℕ, ◌≡◌, refl, ◌⊎◌, inl, inr, true, false, Option, none, some, arith, Bool-cases,
}
use ip_noise.Delayer.{Delayed}
use ip_noise.Delayer.Delay.{Covers}
use ip_noise.Delayer.Order.{NotAfter, IsDelayer}
use ip_noise.Delayer.Release.{release-Releases}
use ip_noise.Delayer.Thread.{Phase, System, Turn, Reached, Turns}
use ip_noise.Delayer.Thread.Wake.{deadline-Covers, Reached-IsSafe}
use ip_noise.Model.{Timeval}
use ip_noise.PQueue.Heap.{contents}
use ip_noise.Time.{timeval_cmp}
use ip_noise.Time.Laws.{timeval_cmp_trans}

not_late : (now t : Timeval) → timeval_cmp now t ≡ Ordering.lt → NotAfter t now → ⊥
unfolding timeval_cmp
not_late now t h k = ground arith

-- On its way into the outer loop, the thread releases what is due.
check-releases :
    (s : System) (a : Delayed)
    → IsDelayer s.pq
    → s.phase ≡ Phase.checking
    → Mem a (contents s.pq)
    → NotAfter a.tv s.now
    → (t : System) × Turn s t × Mem a t.released
check-releases s a v p i l =
    let x = release-Releases s.now s.pq v in
    let (w, d, _) = deadline-Covers x.after x.valid in
    (
      _,
      Turn.check p x.runs d,
      Or.elim Mem-prop (mem-append.0 ((Perm.mem_iff x.same).1 i)) (mem-append_right s.released)
          (λ k. absurd (not_late s.now a.tv (x.left a k) l)),
    )

-- A wait that has to end, ends: there is a due message.
wakes :
    (s : System) (a : Delayed) {w : Option Timeval}
    → Covers w s.pq
    → s.phase ≡ Phase.waiting w
    → Mem a (contents s.pq)
    → NotAfter a.tv s.now
    → Turn s (record s { phase = Phase.checking; signalled = false })
wakes s a {w = none} c p i l = absurd (c a i)
wakes s a {w = some d} c p i l = Turn.timed_out p (timeval_cmp_trans d a.tv s.now (c a i) l)

-- From a wait that is short enough.
covered-releases :
    (s : System) (a : Delayed) {w : Option Timeval}
    → IsDelayer s.pq
    → Covers w s.pq
    → s.phase ≡ Phase.waiting w
    → Mem a (contents s.pq)
    → NotAfter a.tv s.now
    → (t : System) × Turns s 3 t × Mem a t.released
covered-releases s a v c p i l =
    let up : System = record s { phase = Phase.checking; signalled = false } in
    let (t, u, k) = check-releases up a v refl i l in
    (t, Turns.go (Turns.go Turns.stay (wakes s a c p i l)) u, k)

-- From a wait that was signalled: the thread first waits again.
signalled-releases :
    (s : System) (a : Delayed) {w : Option Timeval}
    → IsDelayer s.pq
    → s.signalled ≡ true
    → s.phase ≡ Phase.waiting w
    → Mem a (contents s.pq)
    → NotAfter a.tv s.now
    → (t : System) × Turns s 3 t × Mem a t.released
signalled-releases s a {w} v f p i l =
    let (d, e, c) = deadline-Covers s.pq v in
    let again : System = record s { phase = Phase.waiting d; signalled = false } in
    let up : System = record s { phase = Phase.checking; signalled = false } in
    let (t, u, k) = check-releases up a v refl i l in
    (
      t,
      Turns.go (Turns.go (Turns.go Turns.stay (Turn.woken p f e)) (wakes again a c refl i l)) u,
      k,
    )

Phase-cases : (p : Phase) → (p ≡ Phase.checking) ⊎ ((w : Option Timeval) × (p ≡ Phase.waiting w))
Phase-cases Phase.checking = inl refl
Phase-cases (Phase.waiting w) = inr (w, refl)

-- In every state that the delayer's thread, the callers of delay_packet and a clock that does not
-- go back can reach, a message of the queue whose time has come is released by at most three steps
-- of the thread alone: it is never left in a wait that does not end.
pub Reached-releases :
    {garbage : ℕ → Delayed} {start : Timeval} {s : System} (a : Delayed)
    → Reached garbage start s
    → Mem a (contents s.pq)
    → NotAfter a.tv s.now
    → (t : System) × Turns s 3 t × Mem a t.released
Reached-releases {s = s} a r i l =
    let safe = Reached-IsSafe r in
    elim (Phase-cases s.phase) [
      | inl p ↦ let (t, u, k) = check-releases s a safe.valid p i l in (t, Turns.go Turns.stay u, k)
      | inr (w, p) ↦ elim (Bool-cases s.signalled) [
        | inl f ↦ signalled-releases s a safe.valid f p i l
        | inr f ↦ covered-releases s a safe.valid (safe.covered w p f) p i l
      ]
    ]
