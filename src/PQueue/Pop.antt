-- ===== src/PQueue/Pop.antt =====
-- PQueuePop takes the root out and keeps the heap.
use mathlib.Core.List.Perm
use Prim.Native.Nat.{Ordering}
use mathlib.Core.Bool.{Bool-set}
use mathlib.Core.List.{Perm, Mem}
use mathlib.Core.Path.{subst}
use ip_noise.Common.{
  ℕ, zero, suc, ◌-◌, ◌≤◌, ◌<◌, ◌≡◌, refl, sym, ap, Bool, false, Option, none, some, List, [], ◌∷◌,
  arith, ◌==◌,
}
use ip_noise.PQueue.{PQueue, set_at, is_empty, peek_minimum, sink, pop}
use ip_noise.PQueue.Heap.{IsQueue, IsHeap, contents, load-some, store-some, root_Above, Gives}
use ip_noise.PQueue.Items.{items, others, others-perm, items-each}
use ip_noise.PQueue.Order.{Orders, Above}
use ip_noise.PQueue.Sink.{Sinking, sink-Gives}

module _ {A : Type 0} {cmp : A → A → Ordering} (o : Orders cmp) where
  -- The first place of the heap is free when the root is taken out.
  Sinking-root :
      (e : ℕ → A) (asc : Bool) (n : ℕ) (item : A)
      → IsHeap cmp asc e (suc n)
      → 0 < n
      → Sinking o asc e n 1 item
  Sinking-root e asc n item h p = record {
    place = omega arith;
    fits = omega arith;
    edges = λ c p l s t. h c p (omega arith);
    above = λ p. absurd (omega arith);
    bridge = λ c p l s. absurd (omega arith);
  }

  -- The run has a result: an element that may stand above all others, and the queue of the others.
  pub record Takes (q : PQueue A) (run : Option (Option A × PQueue A)) : Type 0 where
    pub taken : A
    pub after : PQueue A
    pub runs : run ≡ some (some taken, after)
    pub valid : IsQueue cmp after
    pub same : Perm (taken ∷ contents after) (contents q)
    pub first : (a : A) → Mem a (contents q) → Above cmp q.is_ascending taken a
    pub size : suc after.current_size ≡ q.current_size
    pub direction : after.is_ascending ≡ q.is_ascending
    pub peek : peek_minimum q ≡ some (some taken)

  -- The elements but for the root are put in order.
  remove-Gives :
      (q : PQueue A) (n : ℕ)
      → IsQueue cmp q
      → q.current_size ≡ suc n
      → (bag : List A) × Perm (q.elements 1 ∷ bag) (items q.elements (suc n))
        × Gives cmp q.is_ascending n bag
            (sink cmp (suc n) (record q { current_size = n }) 1 (q.elements (suc n)))
  unfolding sink items
  remove-Gives q zero v e = (
    [],
    Perm.rfl,
    rw (store-some (record q { current_size = 0 }) 1 (q.elements 1) (omega (arith, v.inside, e)))
        (record {
          after = record q { current_size = 0; elements = set_at q.elements 1 (q.elements 1) };
          runs = refl;
          valid = record { inside = omega arith; heap = λ c p l. absurd (omega arith) };
          same = Perm.rfl;
          size = refl;
          direction = refl;
        }),
  )
  remove-Gives q (suc n) v e =
      let item = q.elements (suc (suc n)) in
      let heap : IsHeap cmp q.is_ascending q.elements (suc (suc n)) =
        λ c p l. v.heap c p (omega (arith, e)) in
      let root = others-perm q.elements (suc n) 1 (omega arith) (omega arith) in
      (
        item ∷ others q.elements 1 (suc n),
        Perm.trans (Perm.swap _ _ _) (Perm.cons item root),
        sink-Gives o (suc (suc n)) (record q { current_size = suc n }) 1 item (omega arith)
            (omega (arith, v.inside, e))
            (Sinking-root q.elements q.is_ascending (suc n) item heap (omega arith)) root,
      )

  pop-run :
      (q : PQueue A) (n : ℕ) (r : PQueue A)
      → q.current_size ≡ suc n
      → q.current_size ≤ q.max_size
      → sink cmp (suc n) (record q { current_size = n }) 1 (q.elements (suc n)) ≡ some r
      → pop cmp q ≡ some (some (q.elements 1), r)
  unfolding pop is_empty
  pop-run q n r e fit h =
      let t : (q.current_size == 0) ≡ false = ground arith in
      let s : suc n - 1 ≡ n = omega arith in
      rw (t, load-some q 1 (omega (arith, fit)), load-some q q.current_size fit, e, s, h) refl

  peek-run :
      (q : PQueue A)
      → 0 < q.current_size
      → q.current_size ≤ q.max_size
      → peek_minimum q ≡ some (some (q.elements 1))
  unfolding peek_minimum
  peek-run q p fit =
      let t : (q.current_size == 0) ≡ false = ground arith in
      rw (t, load-some q 1 (omega (arith, fit))) refl

  contents_size : (q : PQueue A) (n : ℕ) → q.current_size ≡ n → items q.elements n ≡ contents q
  contents_size q n e = ap (items q.elements) (sym e)

  -- For a comparison that orders the elements up to ties, and a heap that is not empty: PQueuePop
  -- stays inside the array and gives an element that may stand above every element of the queue,
  -- the one that PQueuePeekMinimum shows; it leaves a heap in the same direction that has the
  -- other elements, each as often as before.
  pub pop-Takes : (q : PQueue A) → IsQueue cmp q → 0 < q.current_size → Takes q (pop cmp q)
  pop-Takes q v p =
      let n = q.current_size - 1 in
      let e : q.current_size ≡ suc n = omega arith in
      let (bag, root, placed) = remove-Gives q n v e in
      let c : items q.elements (suc n) ≡ contents q = contents_size q (suc n) e in
      record {
        taken = q.elements 1;
        after = placed.after;
        runs = pop-run q n placed.after e v.inside placed.runs;
        valid = placed.valid;
        same =
            Perm.trans (Perm.cons (q.elements 1) placed.same)
              (subst (Perm (q.elements 1 ∷ bag)) c root);
        first =
            items-each (Above cmp q.is_ascending (q.elements 1)) (λ a. Bool-set _ _) q.elements
              q.current_size
              (λ c h l. root_Above o q.is_ascending q.elements q.current_size c v.heap h l);
        size = omega (arith, e, placed.size);
        direction = placed.direction;
        peek = peek-run q p v.inside;
      }

  -- An empty queue gives NULL and stays as it is.
  pub pop_empty :
      (q : PQueue A)
      → q.current_size ≡ 0
      → (pop cmp q ≡ some (none, q)) × (peek_minimum q ≡ some none)
  unfolding pop is_empty peek_minimum
  pop_empty q e = rw e (refl, refl)
