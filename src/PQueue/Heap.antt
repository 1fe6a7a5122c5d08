-- ===== src/PQueue/Heap.antt =====
-- The well-formed queues: heaps inside of their arrays.
use Prim.Native.Nat.{Ordering}
use mathlib.Core.List.{Perm}
use native.Mathlib.Decide.{ℕ_discrete}
use ip_noise.Common.{ℕ, zero, suc, ◌/◌, ◌≤◌, ◌<◌, ◌≡◌, Bool, true, false, Option, some, List, arith}
use ip_noise.PQueue.{PQueue, set_at, load, store, is_empty}
use ip_noise.PQueue.Items.{items}
use ip_noise.PQueue.Order.{Orders, Above, Above-refl, Above-trans}

module _ {A : Type 0} (cmp : A → A → Ordering) where
  -- Every element of index 2 to `n` has one above it that may stand there.
  abbrev pub IsHeap : Bool → (ℕ → A) → ℕ → Type 0
  IsHeap asc e n = (c : ℕ) → 1 < c → c ≤ n → Above cmp asc (e (c / 2)) (e c)

  pub record IsQueue (q : PQueue A) : Type 0 where
    pub inside : q.current_size ≤ q.max_size
    pub heap : IsHeap q.is_ascending q.elements q.current_size

module _ {A : Type 0} where
  -- The elements of the queue.
  abbrev pub contents : PQueue A → List A
  contents q = items q.elements q.current_size

  pub load-some : (q : PQueue A) (i : ℕ) → i ≤ q.max_size → load q i ≡ some (q.elements i)
  unfolding load
  load-some q i h = ground arith

  pub store-some :
      (q : PQueue A) (i : ℕ) (a : A)
      → i ≤ q.max_size
      → store q i a ≡ some (record q { elements = set_at q.elements i a })
  unfolding store
  store-some q i a h = ground arith

module _ {A : Type 0} {cmp : A → A → Ordering} (o : Orders cmp) (asc : Bool) where
  root_below :
      (k : ℕ) (e : ℕ → A) (n c : ℕ)
      → IsHeap cmp asc e n
      → c < k
      → 0 < c
      → c ≤ n
      → Above cmp asc (e 1) (e c)
  root_below zero e n c h f p l = absurd (omega arith)
  root_below (suc k) e n c h f p l = elim (ℕ_discrete 1 c) [
    | yes q ↦ rw (← q) (Above-refl o asc (e 1))
    | no q ↦
        Above-trans o asc (e 1) (e (c / 2)) (e c)
          (root_below k e n (c / 2) h (omega (arith, q)) (ground arith) (omega arith))
          (h c (ground arith) l)
  ]

  -- No element of a heap may not stand below the root.
  pub root_Above :
      (e : ℕ → A) (n c : ℕ) → IsHeap cmp asc e n → 0 < c → c ≤ n → Above cmp asc (e 1) (e c)
  root_Above e n c h p l = root_below (suc c) e n c h (omega arith) p l

-- The run has a result: a queue of `n` elements in the direction `asc`, which are those of `bag`.
module _ {A : Type 0} (cmp : A → A → Ordering) where
  pub record Gives (asc : Bool) (n : ℕ) (bag : List A) (run : Option (PQueue A)) : Type 0 where
    pub after : PQueue A
    pub runs : run ≡ some after
    pub valid : IsQueue cmp after
    pub same : Perm (contents after) bag
    pub size : after.current_size ≡ n
    pub direction : after.is_ascending ≡ asc

module _ {A : Type 0} where
  pub not_empty : (q : PQueue A) → 0 < q.current_size → is_empty q ≡ false
  unfolding is_empty
  not_empty q p = ground arith

  pub empty : (q : PQueue A) → q.current_size ≡ 0 → is_empty q ≡ true
  unfolding is_empty
  empty q e = ground arith
