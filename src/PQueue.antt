-- ===== src/PQueue.antt =====
-- The priority queue of C/arbitrator/pqueue.c, a binary heap with its root at index 1, over any type of
-- elements. An element is a pointer in the code, to an entry that does not change while it is in the
-- queue. The sizes are below 2 ^ 30, so that no index overflows.
pub mod Order
pub mod Items
pub mod Heap
pub mod Push
pub mod Sink
pub mod Pop
use Prim.Native.Nat.{Ordering}
use ip_noise.Common.{
  ℕ, zero, suc, ◌+◌, ◌-◌, ◌*◌, ◌/◌, Bool, true, false, Option, none, some, leb, ◌==◌, if◌then◌else◌,
}
use ip_noise.Common.Fault.{◌>>=◌}

-- PQUEUE, for a fixed comparison. `elements` has the indices 0 to `max_size`.
pub record PQueue (A : Type 0) : Type 0 where
  pub max_size : ℕ
  pub current_size : ℕ
  pub elements : ℕ → A
  pub is_ascending : Bool

module _ {A : Type 0} where
  unfoldable pub set_at : (ℕ → A) → ℕ → A → ℕ → A
  set_at e i a j = if i == j then a else e j

  -- A read or a write outside of the array is a fault.
  unfoldable pub load : PQueue A → ℕ → Option A
  load q i = if leb i q.max_size then some (q.elements i) else none

  unfoldable pub store : PQueue A → ℕ → A → Option (PQueue A)
  unfolding set_at
  store q i a =
      if leb i q.max_size then some (record q { elements = set_at q.elements i a }) else none

  -- PQueueInitialise, for the contents of the new array
  unfoldable pub initialise : ℕ → Bool → (ℕ → A) → PQueue A
  initialise max_elements is_ascending garbage = record {
    max_size = max_elements;
    current_size = 0;
    elements = garbage;
    is_ascending = is_ascending;
  }

  -- PQueueIsEmpty
  unfoldable pub is_empty : PQueue A → Bool
  is_empty q = q.current_size == 0

  -- PQueuePeekMinimum: `none` inside is NULL.
  unfoldable pub peek_minimum : PQueue A → Option (Option A)
  unfolding load
  peek_minimum q = if q.current_size == 0 then some none else do a ← load q 1; some (some a)

  -- The first `if` of PQueuePush
  unfoldable pub make_room : PQueue A → PQueue A
  make_room q = if q.current_size == q.max_size then record q { max_size = q.max_size + 256 } else q

module _ {A : Type 0} (cmp : A → A → Ordering) where
  -- The tests of the loops: `cmp(a, b) < 0` in an ascending queue and `cmp(a, b) > 0` in another,
  unfoldable pub worse : Bool → A → A → Bool
  worse true a b = elim (cmp a b) [ Ordering.lt ↦ true | Ordering.eq ↦ false | Ordering.gt ↦ false ]
  worse false a b = elim (cmp a b) [
    | Ordering.lt ↦ false
    | Ordering.eq ↦ false
    | Ordering.gt ↦ true
  ]

  -- and the other way round.
  unfoldable pub better : Bool → A → A → Bool
  better true a b = elim (cmp a b) [
    | Ordering.lt ↦ false
    | Ordering.eq ↦ false
    | Ordering.gt ↦ true
  ]
  better false a b = elim (cmp a b) [
    | Ordering.lt ↦ true
    | Ordering.eq ↦ false
    | Ordering.gt ↦ false
  ]

  -- The loop of PQueuePush, and the write behind it.
  unfoldable pub rise : ℕ → PQueue A → ℕ → A → Option (PQueue A)
  unfolding load store
  rise zero q i item = none
  rise (suc fuel) q i item =
      let lift : A → Option (PQueue A) = (λ p. store q i p >>= λ r. rise fuel r (i / 2) item) in
      let step : Option (PQueue A) =
        (load q (i / 2) >>= λ p. if worse q.is_ascending p item then lift p else store q i item) in
      if i == 1 then store q i item else step

  -- PQueuePush
  unfoldable pub push : PQueue A → A → Option (PQueue A)
  unfolding make_room rise
  push q item =
      let r = make_room q in
      let n = r.current_size + 1 in rise n (record r { current_size = n }) n item

  -- The choice of the child in the loop of PQueuePop
  unfoldable pub best_child : PQueue A → ℕ → Option ℕ
  unfolding load
  best_child q i =
      let two : Option ℕ =
        (load q (2 * i + 1) >>= λ r.
        load q (2 * i) >>= λ l. some (if better q.is_ascending r l then 2 * i + 1 else 2 * i)) in
      if 2 * i == q.current_size then some (2 * i) else two

  -- The loop of PQueuePop, and the write behind it.
  unfoldable pub sink : ℕ → PQueue A → ℕ → A → Option (PQueue A)
  unfolding load store best_child
  sink zero q i item = none
  sink (suc fuel) q i item =
      let step : Option (PQueue A) =
        (best_child q i >>= λ child. load q child >>= λ c.
        let lower : Option (PQueue A) = (store q i c >>= λ r. sink fuel r child item) in
        if worse q.is_ascending item c then lower else store q i item) in
      if leb (2 * i) q.current_size then step else store q i item

  -- PQueuePop
  unfoldable pub pop : PQueue A → Option (Option A × PQueue A)
  unfolding is_empty load sink
  pop q =
      let taken : Option (Option A × PQueue A) =
        (load q 1 >>= λ first. load q q.current_size >>= λ item.
        sink q.current_size (record q { current_size = q.current_size - 1 }) 1 item >>= λ r.
        some (some first, r)) in
      if is_empty q then some (none, q) else taken
