-- ===== src/BinarySearch/Laws.antt =====
-- SFO_bsearch finds the key, or the place where it belongs, and ends.
use Prim.Native.Nat.{Ordering}
use native.Mathlib.Decide.{dec_lt}
use ip_noise.BinarySearch.{Found, bisect, bsearch}
use ip_noise.Common.{
  ℕ, zero, suc, ◌+◌, ◌-◌, ◌/◌, ◌≤◌, ◌<◌, ◌≡◌, refl, inl, inr, true, false, Option, some, List,
  arith, ltb, Bool-cases, Ordering-cases, length, get_elem?, get_elem?-defined, get_elem?-lt,
}

module _ {ℓ} {A : Type ℓ} (cmp : A → Ordering) (array : List A) where
  -- The array is in order, as far as the key can tell: no entry above the key stands before one
  -- that is not.
  pub record IsOrdered : Type ℓ where
    pub below :
        (i j : ℕ) {a b : A}
        → i < j
        → get_elem? array i ≡ some a
        → get_elem? array j ≡ some b
        → cmp b ≡ Ordering.gt
        → cmp a ≡ Ordering.gt
    pub above :
        (i j : ℕ) {a b : A}
        → i < j
        → get_elem? array i ≡ some a
        → get_elem? array j ≡ some b
        → cmp a ≡ Ordering.lt
        → cmp b ≡ Ordering.lt

  -- The entries before `low` are below the key, those from `next` on above it.
  pub record Bounded (low next : ℕ) : Type ℓ where
    pub inside : next ≤ length array
    pub before : (i : ℕ) {a : A} → i < low → get_elem? array i ≡ some a → cmp a ≡ Ordering.gt
    pub after : (i : ℕ) {a : A} → next ≤ i → get_elem? array i ≡ some a → cmp a ≡ Ordering.lt

  -- The key is at the index, or its place is there.
  abbrev pub Answer : Found → Type ℓ
  Answer r = elim r.found [
    | true ↦ (a : A) × (get_elem? array r.index ≡ some a) × (cmp a ≡ Ordering.eq)
    | false ↦ Bounded r.index r.index
  ]

  abbrev pub Finds : Option Found → Type ℓ
  Finds o = (r : Found) × (o ≡ some r) × Answer r

  Bounded-left :
      {low next : ℕ} (mid : ℕ) {e : A}
      → IsOrdered
      → Bounded low next
      → mid < next
      → get_elem? array mid ≡ some e
      → cmp e ≡ Ordering.lt
      → Bounded low mid
  Bounded-left mid o b h at below = record {
    inside = omega (arith, b.inside);
    before = b.before;
    after =
        λ i p q. elim (dec_lt mid i) [ yes l ↦ o.above mid i l at q below | no l ↦ ground arith ];
  }

  Bounded-right :
      {low next : ℕ} (mid : ℕ) {e : A}
      → IsOrdered
      → Bounded low next
      → get_elem? array mid ≡ some e
      → cmp e ≡ Ordering.gt
      → Bounded (mid + 1) next
  Bounded-right mid o b at above = record {
    inside = b.inside;
    before =
        λ i p q. elim (dec_lt i mid) [ yes l ↦ o.below i mid l q at above | no l ↦ ground arith ];
    after = b.after;
  }

  bisect-Finds :
      (fuel low next : ℕ)
      → IsOrdered
      → low ≤ next
      → next - low < fuel
      → Bounded low next
      → Finds (bisect cmp array fuel low next)
  unfolding bisect
  bisect-Finds zero low next o h f b = absurd (omega arith)
  bisect-Finds (suc fuel) low next o h f b = elim (Bool-cases (ltb low next)) [
    | inr done ↦ rw (done, bisect) (record { found = false; index = next }, refl, ground arith)
    | inl more ↦
        let mid = (low + next - 1) / 2 in
        let l : mid < next = ground arith in
        let (e, at) = get_elem?-defined array mid (omega (arith, b.inside)) in
        rw (more, bisect, at)
          (elim (Ordering-cases (cmp e)) [
            | inl p ↦ rw p (
                bisect-Finds fuel low mid o (ground arith) (ground arith)
                  (Bounded-left mid o b l at p))
            | inr (inl p) ↦ rw p (record { found = true; index = mid }, refl, (e, at, p))
            | inr (inr p) ↦ rw p (
                bisect-Finds fuel (mid + 1) next o (ground arith) (ground arith)
                  (Bounded-right mid o b at p))
          ])
  ]

  -- On an array in order the search ends inside it, without reading outside of it or running out
  -- of fuel, and finds an entry that compares equal, or else returns the place before which every
  -- entry is below the key and from which every one is above.
  pub bsearch-Finds : IsOrdered → Finds (bsearch cmp array)
  unfolding bsearch
  bsearch-Finds o =
      bisect-Finds (length array + 1) 0 (length array) o (omega arith) (omega arith) (record {
        inside = omega arith;
        before = λ i p. absurd (omega arith);
        after = λ i p q. absurd (omega (arith, get_elem?-lt array i q));
      })
