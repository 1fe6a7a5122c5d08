-- ===== src/PQueue/Sink.antt =====
-- The loop of PQueuePop puts an element in its place.
use mathlib.Core.List.Perm
use Prim.Native.Nat.{Ordering}
use mathlib.Core.List.{Perm}
use native.Mathlib.Decide.{ℕ_discrete}
use ip_noise.Common.{
  ℕ, zero, suc, ◌+◌, ◌*◌, ◌/◌, ◌≤◌, ◌<◌, ◌≡◌, refl, ◌≢◌, ◌⊎◌, inl, inr, Bool, true, false, some,
  List, ◌∷◌, arith, leb, ◌==◌, leb→le, Bool-cases,
}
use ip_noise.PQueue.{PQueue, set_at, store, worse, better, best_child, sink}
use ip_noise.PQueue.Heap.{IsHeap, contents, load-some, store-some, Gives}
use ip_noise.PQueue.Items.{set_at_other, fill-perm}
use ip_noise.PQueue.Order.{
  Orders, Above, worse-Above, better-Above, not_better-Above, Above-refl, Above-trans,
}

module _ {A : Type 0} {cmp : A → A → Ordering} (o : Orders cmp) (asc : Bool) where
  -- A heap but for the free place `i`, where `item` is to go there or further down.
  pub record Sinking (e : ℕ → A) (n i : ℕ) (item : A) : Type 0 where
    pub place : 0 < i
    pub fits : i ≤ n
    pub edges : (c : ℕ) → 1 < c → c ≤ n → c ≢ i → c / 2 ≢ i → Above cmp asc (e (c / 2)) (e c)
    pub above : 1 < i → Above cmp asc (e (i / 2)) item
    pub bridge : (c : ℕ) → 1 < i → c ≤ n → c / 2 ≡ i → Above cmp asc (e (i / 2)) (e c)

  -- A child of `i` that may stand above every child of it.
  pub record IsBest (e : ℕ → A) (n i b : ℕ) : Type 0 where
    pub child : b / 2 ≡ i
    pub fits : b ≤ n
    pub best : (c : ℕ) → c ≤ n → c / 2 ≡ i → Above cmp asc (e b) (e c)

  module _ (e : ℕ → A) (n i : ℕ) (item : A) (v : Sinking e n i item) where
    pub Sinking-IsHeap :
        ((c : ℕ) → c ≤ n → c / 2 ≡ i → Above cmp asc item (e c))
        → IsHeap cmp asc (set_at e i item) n
    unfolding set_at
    Sinking-IsHeap below = λ c p l. ground (arith, v.edges c, v.above, below c, v.place)

    pub lower-Sinking :
        (b : ℕ)
        → IsBest e n i b
        → worse cmp asc item (e b) ≡ true
        → Sinking (set_at e i (e b)) n b item
    unfolding set_at
    lower-Sinking b k w =
        let up = worse-Above o asc item (e b) w in
        record {
          place = omega (arith, v.place, k.child);
          fits = k.fits;
          edges = λ c q l s t.
              ground (arith, v.edges c, v.bridge b, k.best c, k.child, k.fits, v.place);
          above = λ q. ground (arith, k.child);
          bridge = λ c q l s. ground (arith, v.edges c, k.child, v.place);
        }

module _ {A : Type 0} {cmp : A → A → Ordering} (o : Orders cmp) where
  best_child-IsBest :
      (q : PQueue A) (i : ℕ)
      → 0 < i
      → 2 * i ≤ q.current_size
      → q.current_size ≤ q.max_size
      → (b : ℕ) × (best_child cmp q i ≡ some b)
        × IsBest o q.is_ascending q.elements q.current_size i b
  unfolding best_child
  best_child-IsBest q i p l fit = elim (ℕ_discrete (2 * i) q.current_size) [
    | yes e ↦ (
      2 * i,
      ground arith,
      record {
        child = omega arith;
        fits = l;
        best = λ c h s.
            let same : c ≡ 2 * i = omega (arith, e) in
            rw same (Above-refl o q.is_ascending (q.elements (2 * i)));
      },
    )
    | no ne ↦
        let t : (2 * i == q.current_size) ≡ false = ground arith in
        let first : (c : ℕ) → c / 2 ≡ i → (c ≡ 2 * i) ⊎ (c ≡ 2 * i + 1) = λ c h. ground arith in
        rw (t, load-some q (2 * i + 1) (ground arith), load-some q (2 * i) (omega arith))
          (elim (Bool-cases
            (better cmp q.is_ascending (q.elements (2 * i + 1)) (q.elements (2 * i)))) [
              | inl w ↦ (
                2 * i + 1,
                rw w refl,
                record {
                  child = omega arith;
                  fits = ground arith;
                  best = λ c h s. elim (first c s) [
                    | inl z ↦ rw z (better-Above o q.is_ascending _ _ w)
                    | inr z ↦ rw z (Above-refl o q.is_ascending _)
                  ];
                },
              )
              | inr w ↦ (
                2 * i,
                rw w refl,
                record {
                  child = omega arith;
                  fits = l;
                  best = λ c h s. elim (first c s) [
                    | inl z ↦ rw z (Above-refl o q.is_ascending _)
                    | inr z ↦ rw z (not_better-Above o q.is_ascending _ _ w)
                  ];
                },
              )
            ])
  ]

  -- The write behind the loop.
  settle-Gives :
      (q : PQueue A) (i : ℕ) (item : A) {rest : List A}
      → q.current_size ≤ q.max_size
      → Sinking o q.is_ascending q.elements q.current_size i item
      → Perm (q.elements i ∷ rest) (contents q)
      → ((c : ℕ) → c ≤ q.current_size → c / 2 ≡ i → Above cmp q.is_ascending item (q.elements c))
      → Gives cmp q.is_ascending q.current_size (item ∷ rest) (store q i item)
  settle-Gives q i item fit v same below = record {
    after = record q { elements = set_at q.elements i item };
    runs = store-some q i item (omega (arith, v.fits, fit));
    valid = record {
      inside = fit;
      heap = Sinking-IsHeap o q.is_ascending q.elements q.current_size i item v below;
    };
    same = Perm.symm (fill-perm q.elements q.current_size i item v.place v.fits same);
    size = refl;
    direction = refl;
  }

  -- The state behind one round of the loop, for the child `b`.
  lowered : PQueue A → ℕ → ℕ → PQueue A
  lowered q i b = record q { elements = set_at q.elements i (q.elements b) }

  lowered-same :
      (q : PQueue A) (i b : ℕ) {rest : List A}
      → 0 < i
      → i ≤ q.current_size
      → b / 2 ≡ i
      → Perm (q.elements i ∷ rest) (contents q)
      → Perm ((lowered q i b).elements b ∷ rest) (contents (lowered q i b))
  unfolding lowered
  lowered-same q i b p h s same =
      rw (set_at_other q.elements i b (q.elements b) (ground arith))
        (fill-perm q.elements q.current_size i (q.elements b) p h same)

  pub sink-Gives :
      (fuel : ℕ) (q : PQueue A) (i : ℕ) (item : A) {rest : List A}
      → suc q.current_size ≤ fuel + i
      → q.current_size ≤ q.max_size
      → Sinking o q.is_ascending q.elements q.current_size i item
      → Perm (q.elements i ∷ rest) (contents q)
      → Gives cmp q.is_ascending q.current_size (item ∷ rest) (sink cmp fuel q i item)
  unfolding sink lowered
  sink-Gives zero q i item k fit v same = absurd (omega (arith, v.fits))
  sink-Gives (suc fuel) q i item k fit v same = elim (Bool-cases (leb (2 * i) q.current_size)) [
    | inl t ↦
        let (b, e, best) = best_child-IsBest q i v.place (leb→le _ _ t) fit in
        rw (t, e, load-some q b (omega (arith, best.fits, fit)))
          (elim (Bool-cases (worse cmp q.is_ascending item (q.elements b))) [
            | inl w ↦
                rw (w, store-some q i (q.elements b) (omega (arith, fit, v.fits)))
                  (sink-Gives fuel (lowered q i b) b item (omega (arith, best.child, v.place)) fit
                    (lower-Sinking o q.is_ascending q.elements q.current_size i item v b best w)
                    (lowered-same q i b v.place v.fits best.child same))
            | inr w ↦ rw w (
                settle-Gives q i item fit v same (λ c l s.
                  Above-trans o q.is_ascending item (q.elements b) (q.elements c) w
                    (best.best c l s)))
          ])
    | inr t ↦ rw t (settle-Gives q i item fit v same (λ c l s. absurd (ground arith)))
  ]
