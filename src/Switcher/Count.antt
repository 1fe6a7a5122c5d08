-- ===== src/Switcher/Count.antt =====
-- How many events are over.
use mathlib.Core.List.{Perm, Permᴰ}
use mathlib.Core.Logic.{∥∥₁_elim}
use native.Mathlib.Nat.{ℕ_set}
use ip_noise.Common.{
  ℕ, zero, suc, ◌+◌, ◌≤◌, ◌≡◌, refl, ap, ◌∙◌, inl, inr, Bool, true, false, List, [], ◌∷◌, arith,
  Bool-cases,
}
use ip_noise.Model.{Timeval}
use ip_noise.PQueue.Items.{items}
use ip_noise.Packet.Decide.{current}
use ip_noise.Switcher.{Event, is_over}

one_if : Bool → ℕ
one_if true = 1
one_if false = 0

pub over_count : Timeval → List Event → ℕ
over_count current [] = 0
over_count current (a ∷ l) = one_if (is_over a current) + over_count current l

perm-over_count :
    (current : Timeval) {l m : List Event} → Permᴰ l m → over_count current l ≡ over_count current m
unfolding over_count
perm-over_count current Permᴰ.nil = refl
perm-over_count current (Permᴰ.cons e p) = rw e (ap (◌+◌ _) (perm-over_count current p))
perm-over_count current (Permᴰ.swap e f) = rw (e, f) (omega arith)
perm-over_count current (Permᴰ.trans p q) = perm-over_count current p ∙ perm-over_count current q

-- The order of the events does not count.
pub Perm-over_count :
    (current : Timeval) {l m : List Event} → Perm l m → over_count current l ≡ over_count current m
Perm-over_count current p = ∥∥₁_elim p (ℕ_set _ _) (λ d. perm-over_count current d)

pub over_count_over :
    (current : Timeval) (a : Event) (l : List Event)
    → is_over a current ≡ true
    → over_count current (a ∷ l) ≡ suc (over_count current l)
unfolding over_count one_if
over_count_over current a l h = rw h (omega arith)

pub over_count_not :
    (current : Timeval) (a : Event) (l : List Event)
    → is_over a current ≡ false
    → over_count current (a ∷ l) ≡ over_count current l
unfolding over_count one_if
over_count_not current a l h = rw h (omega arith)

pub over_count-length :
    (current : Timeval) (e : ℕ → Event) (n : ℕ) → over_count current (items e n) ≤ n
unfolding over_count items one_if
over_count-length current e zero = omega arith
over_count-length current e (suc n) = elim (Bool-cases (is_over (e (suc n)) current)) [
  | inl h ↦ rw h (omega (arith, over_count-length current e n))
  | inr h ↦ rw h (omega (arith, over_count-length current e n))
]
