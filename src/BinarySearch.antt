-- ===== src/BinarySearch.antt =====
-- SFO_bsearch of C/arbitrator/fcs_dm.c, over any array and any comparison with the key. The length is
-- that of the list, below 2 ^ 30, so that `low + high` does not overflow.
pub mod Laws
use Prim.Native.Nat.{Ordering}
use ip_noise.Common.{
  ℕ, zero, suc, ◌+◌, ◌-◌, ◌/◌, List, Option, none, some, Bool, true, false, get_elem?, length, ltb,
}
use ip_noise.Common.Fault.{◌>>=◌}

-- What the function returns: `*found`, and the index of the pointer.
pub record Found : Type 0 where
  pub found : Bool
  pub index : ℕ

module _ {ℓ} {A : Type ℓ} (cmp : A → Ordering) (array : List A) where
  -- The `while`, with `next` for `high + 1`, since `high` may be -1. `cmp e` is the sign of
  -- `compare(key, e)`.
  unfoldable pub bisect : ℕ → ℕ → ℕ → Option Found
  bisect zero low next = none
  bisect (suc fuel) low next =
      let mid = (low + next - 1) / 2 in
      elim (ltb low next) [
        | true ↦ get_elem? array mid >>= λ e. elim (cmp e) [
          | Ordering.lt ↦ bisect fuel low mid
          | Ordering.gt ↦ bisect fuel (mid + 1) next
          | Ordering.eq ↦ some (record { found = true; index = mid })
        ]
        | false ↦ some (record { found = false; index = next })
      ]

  unfoldable pub bsearch : Option Found
  unfolding bisect
  bsearch = bisect (length array + 1) 0 (length array)
