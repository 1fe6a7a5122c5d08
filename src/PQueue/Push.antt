-- ===== src/PQueue/Push.antt =====
-- PQueuePush keeps the heap and adds the item.
use mathlib.Core.List.Perm
use Prim.Native.Nat.{Ordering}
use mathlib.Core.List.{Perm}
use native.Mathlib.Decide.{ℕ_discrete}
use native.Mathlib.Nat.{two-pow-succ}
use ip_noise.Common.{
  ℕ, zero, suc, ◌+◌, ◌/◌, ◌^◌, ◌≤◌, ◌<◌, ◌≡◌, refl, ◌≢◌, inl, inr, Bool, true, false, List, ◌∷◌,
  arith, ◌==◌, Bool-cases,
}
use ip_noise.PQueue.{PQueue, set_at, store, make_room, worse, rise, push}
use ip_noise.PQueue.Heap.{IsQueue, IsHeap, contents, load-some, store-some, Gives}
use ip_noise.PQueue.Items.{items, set_at_other, fill-perm}
use ip_noise.PQueue.Order.{Orders, Above, worse-Above, Above-trans}

module _ {A : Type 0} {cmp : A → A → Ordering} (o : Orders cmp) (asc : Bool) where
  -- A heap but for the free place `i`, where `item` is to go there or further up.
  record Rising (e : ℕ → A) (n i : ℕ) (item : A) : Type 0 where
    place : 0 < i
    fits : i ≤ n
    edges : (c : ℕ) → 1 < c → c ≤ n → c ≢ i → c / 2 ≢ i → Above cmp asc (e (c / 2)) (e c)
    below : (c : ℕ) → 1 < c → c ≤ n → c / 2 ≡ i → Above cmp asc item (e c)
    bridge : (c : ℕ) → 1 < i → c ≤ n → c / 2 ≡ i → Above cmp asc (e (i / 2)) (e c)

  module _ (e : ℕ → A) (n i : ℕ) (item : A) (v : Rising e n i item) where
    Rising-IsHeap : (1 < i → Above cmp asc (e (i / 2)) item) → IsHeap cmp asc (set_at e i item) n
    unfolding set_at
    Rising-IsHeap above = λ c p l. ground (arith, v.edges c, v.below c, above)

    lift-Rising :
        1 < i
        → worse cmp asc (e (i / 2)) item ≡ true
        → Rising (set_at e i (e (i / 2))) n (i / 2) item
    unfolding set_at
    lift-Rising p w =
        let up = worse-Above o asc (e (i / 2)) item w in
        record {
          place = omega arith;
          fits = omega (arith, v.fits);
          edges = λ c q l s t. ground (arith, v.edges c, v.bridge c);
          below = λ c q l s. ground (arith, v.edges c, Above-trans o asc item (e (i / 2)) (e c));
          bridge = λ c q l s. ground (
            arith,
            v.edges c,
            v.edges (i / 2),
            Above-trans o asc (e (i / 2 / 2)) (e (i / 2)) (e c),
          );
        }

-- Each round halves the index.
half_below : (n i : ℕ) → i < 2 ^ suc n → i / 2 < 2 ^ n
half_below n i h = let d : 2 ^ suc n ≡ 2 ^ n + 2 ^ n = two-pow-succ n in omega (arith, d, h)

below_power : (n : ℕ) → n < 2 ^ n
below_power zero = omega arith
below_power (suc n) =
    let d : 2 ^ suc n ≡ 2 ^ n + 2 ^ n = two-pow-succ n in omega (arith, d, below_power n)

module _ {A : Type 0} {cmp : A → A → Ordering} (o : Orders cmp) where
  -- The write behind the loop.
  place-Gives :
      (q : PQueue A) (i : ℕ) (item : A) {rest : List A}
      → q.current_size ≤ q.max_size
      → Rising o q.is_ascending q.elements q.current_size i item
      → Perm (q.elements i ∷ rest) (contents q)
      → (1 < i → Above cmp q.is_ascending (q.elements (i / 2)) item)
      → Gives cmp q.is_ascending q.current_size (item ∷ rest) (store q i item)
  place-Gives q i item fit v same above = record {
    after = record q { elements = set_at q.elements i item };
    runs = store-some q i item (omega (arith, v.fits, fit));
    valid = record {
      inside = fit;
      heap = Rising-IsHeap o q.is_ascending q.elements q.current_size i item v above;
    };
    same = Perm.symm (fill-perm q.elements q.current_size i item v.place v.fits same);
    size = refl;
    direction = refl;
  }

  -- The state behind one round of the loop.
  lifted : PQueue A → ℕ → PQueue A
  lifted q i = record q { elements = set_at q.elements i (q.elements (i / 2)) }

  lifted-same :
      (q : PQueue A) (i : ℕ) {rest : List A}
      → 1 < i
      → i ≤ q.current_size
      → Perm (q.elements i ∷ rest) (contents q)
      → Perm ((lifted q i).elements (i / 2) ∷ rest) (contents (lifted q i))
  unfolding lifted
  lifted-same q i p h same =
      rw (set_at_other q.elements i (i / 2) (q.elements (i / 2)) (ground arith))
        (fill-perm q.elements q.current_size i (q.elements (i / 2)) (omega arith) h same)

  rise-Gives :
      (fuel : ℕ) (q : PQueue A) (i : ℕ) (item : A) {rest : List A}
      → i < 2 ^ fuel
      → q.current_size ≤ q.max_size
      → Rising o q.is_ascending q.elements q.current_size i item
      → Perm (q.elements i ∷ rest) (contents q)
      → Gives cmp q.is_ascending q.current_size (item ∷ rest) (rise cmp fuel q i item)
  unfolding rise lifted
  rise-Gives zero q i item k fit v same = absurd (omega (arith, v.place))
  rise-Gives (suc fuel) q i item k fit v same =
      let half : i / 2 < 2 ^ fuel = half_below fuel i k in
      elim (ℕ_discrete i 1) [
        | yes e ↦
            let t : (i == 1) ≡ true = ground arith in
            rw t (place-Gives q i item fit v same (λ p. absurd (omega (arith, e))))
        | no ne ↦
            let t : (i == 1) ≡ false = ground arith in
            let p : 1 < i = ground (arith, v.place) in
            rw (t, load-some q (i / 2) (omega (arith, fit, v.fits)))
              (elim (Bool-cases (worse cmp q.is_ascending (q.elements (i / 2)) item)) [
                | inl w ↦
                    rw (w, store-some q i (q.elements (i / 2)) (omega (arith, fit, v.fits)))
                      (rise-Gives fuel (lifted q i) (i / 2) item half fit
                        (lift-Rising o q.is_ascending q.elements q.current_size i item v p w)
                        (lifted-same q i p v.fits same))
                | inr w ↦ rw w (place-Gives q i item fit v same (λ _. w))
              ])
      ]

  -- The free place at the end of the queue.
  Rising-end :
      (e : ℕ → A) (asc : Bool) (n : ℕ) (item : A)
      → IsHeap cmp asc e n
      → Rising o asc e (suc n) (suc n) item
  Rising-end e asc n item h = record {
    place = omega arith;
    fits = omega arith;
    edges = λ c p l s t. h c p (omega arith);
    below = λ c p l s. absurd (omega arith);
    bridge = λ c p l s. absurd (omega arith);
  }

  append-Gives :
      (fuel : ℕ) (q : PQueue A) (m : ℕ) (item : A)
      → IsQueue cmp q
      → q.current_size < m
      → suc q.current_size < 2 ^ fuel
      → Gives cmp q.is_ascending (suc q.current_size) (item ∷ contents q) (
          rise cmp fuel
            (record q { max_size = m; current_size = suc q.current_size })
            (suc q.current_size)
            item)
  unfolding items
  append-Gives fuel q m item v h l =
      rise-Gives fuel (record q { max_size = m; current_size = suc q.current_size })
        (suc q.current_size) item l (omega arith)
        (Rising-end q.elements q.is_ascending q.current_size item v.heap) Perm.rfl

  pub push-rounds :
      (k : ℕ) (q : PQueue A) (item : A)
      → IsQueue cmp q
      → suc q.current_size < 2 ^ k
      → Gives cmp q.is_ascending (suc q.current_size) (item ∷ contents q) (
          rise cmp k
            (record (make_room q) { current_size = suc q.current_size })
            (suc q.current_size)
            item)
  unfolding make_room
  push-rounds k q item v l = elim (ℕ_discrete q.current_size q.max_size) [
    | yes e ↦
        let t : (q.current_size == q.max_size) ≡ true = ground arith in
        rw t (append-Gives k q (q.max_size + 256) item v (omega (arith, e)) l)
    | no ne ↦
        let t : (q.current_size == q.max_size) ≡ false = ground arith in
        rw t (append-Gives k q q.max_size item v (ground (arith, v.inside)) l)
  ]

  room_size : (q : PQueue A) → (make_room q).current_size + 1 ≡ suc q.current_size
  unfolding make_room
  room_size q = ground arith

  pub push-Gives :
      (q : PQueue A) (item : A)
      → IsQueue cmp q
      → Gives cmp q.is_ascending (suc q.current_size) (item ∷ contents q) (push cmp q item)
  unfolding push
  push-Gives q item v =
      let n : (make_room q).current_size + 1 ≡ suc q.current_size = room_size q in
      rw n (push-rounds (suc q.current_size) q item v (below_power (suc q.current_size)))
