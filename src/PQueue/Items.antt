-- ===== src/PQueue/Items.antt =====
-- The elements of the queue as a list, and a write as a trade of one of them.
use mathlib.Core.Logic.Or
use mathlib.Core.List.Perm
use mathlib.Core.List.{Perm, Mem, eq-or-mem_of_mem-cons, not-mem-nil}
use mathlib.Core.Path.{ap₂}
use native.Mathlib.Decide.{ℕ_discrete}
use ip_noise.Common.{
  ℕ, zero, suc, ◌≤◌, ◌<◌, ◌≡◌, refl, ap, ◌≢◌, true, false, List, [], ◌∷◌, arith, ◌==◌,
  if◌then◌else◌,
}
use ip_noise.PQueue.{set_at}

module _ {A : Type 0} where
  -- The elements from index `n` down to 1.
  unfoldable pub items : (ℕ → A) → ℕ → List A
  items e zero = []
  items e (suc n) = e (suc n) ∷ items e n

  -- The same without the one at index `i`.
  pub others : (ℕ → A) → ℕ → ℕ → List A
  others e i zero = []
  others e i (suc n) = if i == suc n then items e n else e (suc n) ∷ others e i n

  pub set_at_self : (e : ℕ → A) (i : ℕ) (a : A) → set_at e i a i ≡ a
  unfolding set_at
  set_at_self e i a = ground arith

  pub set_at_other : (e : ℕ → A) (i j : ℕ) (a : A) → i ≢ j → set_at e i a j ≡ e j
  unfolding set_at
  set_at_other e i j a h = ground arith

  items-set_at_above : (e : ℕ → A) (n i : ℕ) (a : A) → n < i → items (set_at e i a) n ≡ items e n
  unfolding items
  items-set_at_above e zero i a h = refl
  items-set_at_above e (suc n) i a h =
      ap₂ ◌∷◌ (set_at_other e i (suc n) a (ground arith)) (items-set_at_above e n i a (omega arith))

  pub others-perm : (e : ℕ → A) (n i : ℕ) → 0 < i → i ≤ n → Perm (e i ∷ others e i n) (items e n)
  unfolding items others
  others-perm e zero i p h = absurd (omega arith)
  others-perm e (suc n) i p h = elim (ℕ_discrete i (suc n)) [
    | yes q ↦
        let t : (i == suc n) ≡ true = ground arith in
        let s : e i ≡ e (suc n) = ap e q in rw (t, s) Perm.rfl
    | no q ↦
        let t : (i == suc n) ≡ false = ground arith in
        rw t (
          Perm.trans (Perm.swap _ _ _) (Perm.cons (e (suc n)) (others-perm e n i p (ground arith))))
  ]

  -- A write puts the new element in place of the old one.
  pub items-set_at :
      (e : ℕ → A) (n i : ℕ) (a : A)
      → 0 < i
      → i ≤ n
      → Perm (e i ∷ items (set_at e i a) n) (a ∷ items e n)
  unfolding items
  items-set_at e zero i a p h = absurd (omega arith)
  items-set_at e (suc n) i a p h = elim (ℕ_discrete i (suc n)) [
    | yes q ↦
        let t : set_at e i a (suc n) ≡ a = rw (← q) (set_at_self e i a) in
        let s : e i ≡ e (suc n) = ap e q in
        rw (t, s, items-set_at_above e n i a (omega (arith, q))) (Perm.swap _ _ _)
    | no q ↦ rw (set_at_other e i (suc n) a q) (
        Perm.trans (Perm.swap _ _ _) (
          Perm.trans (Perm.cons (e (suc n)) (items-set_at e n i a p (ground arith)))
            (Perm.swap _ _ _)))
  ]

  -- With `rest` the elements but for the one at index `i`, a write there adds the new one to them.
  pub fill-perm :
      (e : ℕ → A) (n i : ℕ) (a : A) {rest : List A}
      → 0 < i
      → i ≤ n
      → Perm (e i ∷ rest) (items e n)
      → Perm (a ∷ rest) (items (set_at e i a) n)
  fill-perm e n i a p h same = Perm.cons_inv (
      Perm.trans (Perm.swap _ _ _)
        (Perm.trans (Perm.cons a same) (Perm.symm (items-set_at e n i a p h))))

  -- What holds of each element by its index holds of the members of the list.
  pub items-each :
      (P : A → Type 0)
      → ((a : A) → IsProp (P a))
      → (e : ℕ → A) (n : ℕ) → ((c : ℕ) → 0 < c → c ≤ n → P (e c))
      → (a : A) → Mem a (items e n)
      → P a
  unfolding items
  items-each P P-prop e zero h a m = absurd (not-mem-nil m)
  items-each P P-prop e (suc n) h a m =
      Or.elim (P-prop a) (eq-or-mem_of_mem-cons m)
        (λ q. rw q (h (suc n) (omega arith) (omega arith)))
        (items-each P P-prop e n (λ c p l. h c p (omega arith)) a)
