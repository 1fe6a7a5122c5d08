-- ===== src/Iface/Operations/Search.antt =====
-- The binary search of the table against a search of every row.
use Prim.Native.Nat.{Ordering}
use native.Mathlib.Decide.{dec_lt}
use ip_noise.BinarySearch.Laws.{IsOrdered, Answer, bsearch-Finds}
use ip_noise.Common.{
  ℕ, zero, suc, ◌+◌, ◌≤◌, ◌<◌, ◌≡◌, refl, sym, ap, ◌≢◌, ◌⊎◌, inl, inr, Bool, true, false, Option,
  none, some, List, [], ◌∷◌, arith, ◌==◌, if◌then◌else◌, get_elem?,
}
use ip_noise.Common.Fault.{◌>>=◌}
use ip_noise.Iface.Operations.{Operation, operations, opcode_compare, find_operation}

-- The first row with the opcode.
unfoldable pub row_of : List Operation → ℕ → Option Operation
row_of [] opcode = none
row_of (op ∷ ops) opcode = if op.opcode == opcode then some op else row_of ops opcode

-- The opcodes ascend, from `k` on.
abbrev Ascends : ℕ → List Operation → Type 0
Ascends k [] = Unit {0}
Ascends k (op ∷ ops) = (k ≤ op.opcode) × Ascends (op.opcode + 1) ops

operations-Ascends : Ascends 0 operations
operations-Ascends = omega arith

Ascends-le :
    (ops : List Operation) (k i : ℕ) {op : Operation}
    → Ascends k ops
    → get_elem? ops i ≡ some op
    → k ≤ op.opcode
Ascends-le [] k i h e = cc
Ascends-le (o ∷ ops) k zero h e = ground arith
Ascends-le (o ∷ ops) k (suc i) h e = omega (arith, h.0, Ascends-le ops (o.opcode + 1) i h.1 e)

Ascends-lt :
    (ops : List Operation) (k i j : ℕ) {a b : Operation}
    → Ascends k ops
    → i < j
    → get_elem? ops i ≡ some a
    → get_elem? ops j ≡ some b
    → a.opcode < b.opcode
Ascends-lt [] k i j h l p q = cc
Ascends-lt (o ∷ ops) k zero zero h l p q = absurd (omega arith)
Ascends-lt (o ∷ ops) k zero (suc j) h l p q = ground (arith, Ascends-le ops (o.opcode + 1) j h.1 q)
Ascends-lt (o ∷ ops) k (suc i) zero h l p q = absurd (omega arith)
Ascends-lt (o ∷ ops) k (suc i) (suc j) h l p q =
    Ascends-lt ops (o.opcode + 1) i j h.1 (omega arith) p q

opcode_compare-eq : (n : ℕ) (op : Operation) → opcode_compare n op ≡ Ordering.eq → op.opcode ≡ n
unfolding opcode_compare
opcode_compare-eq n op h = ground arith

opcode_compare-ne :
    (n : ℕ) (op : Operation)
    → (opcode_compare n op ≡ Ordering.gt) ⊎ (opcode_compare n op ≡ Ordering.lt)
    → op.opcode ≢ n
unfolding opcode_compare
opcode_compare-ne n op (inl h) = ground arith
opcode_compare-ne n op (inr h) = ground arith

pub table-IsOrdered : (n : ℕ) → IsOrdered (opcode_compare n) operations
unfolding opcode_compare
table-IsOrdered n = record {
  below =
      λ i j {a} {b} l p q h. ground (arith, Ascends-lt operations 0 i j operations-Ascends l p q);
  above =
      λ i j {a} {b} l p q h. ground (arith, Ascends-lt operations 0 i j operations-Ascends l p q);
}

row_of-at :
    (ops : List Operation) (k i n : ℕ) {op : Operation}
    → Ascends k ops
    → get_elem? ops i ≡ some op
    → op.opcode ≡ n
    → row_of ops n ≡ some op
unfolding row_of
row_of-at [] k i n h e q = cc
row_of-at (o ∷ ops) k zero n h e q = ground arith
row_of-at (o ∷ ops) k (suc i) n h e q =
    ground (arith, Ascends-le ops (o.opcode + 1) i h.1 e, row_of-at ops (o.opcode + 1) i n h.1 e q)

row_of-none :
    (ops : List Operation) (n : ℕ)
    → ((i : ℕ) (op : Operation) → get_elem? ops i ≡ some op → op.opcode ≢ n)
    → row_of ops n ≡ none
unfolding row_of
row_of-none [] n h = refl
row_of-none (o ∷ ops) n h = ground (arith, h 0 o refl, row_of-none ops n (λ i op e. h (suc i) op e))

-- What the answer of the search says of the row.
entry : Bool → ℕ → Option (Option Operation)
entry found i = if found then (do op ← get_elem? operations i; some (some op)) else some none

Answer-row_of :
    (n : ℕ) (found : Bool) (i : ℕ)
    → Answer (opcode_compare n) operations (record { found = found; index = i })
    → entry found i ≡ some (row_of operations n)
unfolding entry
Answer-row_of n true i (op, at, e) =
    rw at
      (ap some (sym (row_of-at operations 0 i n operations-Ascends at (opcode_compare-eq n op e))))
Answer-row_of n false i b = ap some (sym (row_of-none operations n λ j op at. different j op at))
  where
    different : (j : ℕ) (op : Operation) → get_elem? operations j ≡ some op → op.opcode ≢ n
    different j op at = elim (dec_lt j i) [
      | yes l ↦ opcode_compare-ne n op (inl (b.before j l at))
      | no l ↦ opcode_compare-ne n op (inr (b.after j (omega arith) at))
    ]

-- For every opcode the search reads inside the table and finds the row with that opcode, if there
-- is one, and none otherwise: it agrees with a search of every row.
pub find_operation-row_of : (opcode : ℕ) → find_operation opcode ≡ some (row_of operations opcode)
unfolding find_operation entry
find_operation-row_of opcode =
    let (r, e, answer) =
      bsearch-Finds (opcode_compare opcode) operations (table-IsOrdered opcode) in
    rw e (Answer-row_of opcode r.found r.index answer)
