-- ===== src/PQueue/Order.antt =====
-- What a comparison must satisfy, and the order of a heap.
use Prim.Native.Nat.{Ordering}
use ip_noise.Common.{◌≡◌, ◌≢◌, Bool, true, false, arith}
use ip_noise.PQueue.{worse, better}

-- A callback that orders the elements, up to ties.
pub record Orders {A : Type 0} (cmp : A → A → Ordering) : Type 0 where
  pub flip_gt : (a b : A) → cmp a b ≡ Ordering.gt → cmp b a ≡ Ordering.lt
  pub flip_lt : (a b : A) → cmp a b ≡ Ordering.lt → cmp b a ≡ Ordering.gt
  pub not_gt_trans :
      (a b c : A) → cmp a b ≢ Ordering.gt → cmp b c ≢ Ordering.gt → cmp a c ≢ Ordering.gt

module _ {A : Type 0} (cmp : A → A → Ordering) (asc : Bool) where
  -- `a` may stand above `b`.
  abbrev pub Above : A → A → Type 0
  Above a b = worse cmp asc a b ≡ false

module _ {A : Type 0} {cmp : A → A → Ordering} (o : Orders cmp) where
  pub worse-Above : (asc : Bool) (a b : A) → worse cmp asc a b ≡ true → Above cmp asc b a
  unfolding worse
  worse-Above true a b h = ground (arith, o.flip_lt a b)
  worse-Above false a b h = ground (arith, o.flip_gt a b)

  pub better-Above : (asc : Bool) (a b : A) → better cmp asc a b ≡ true → Above cmp asc a b
  unfolding worse better
  better-Above true a b h = ground arith
  better-Above false a b h = ground arith

  pub not_better-Above : (asc : Bool) (a b : A) → better cmp asc a b ≡ false → Above cmp asc b a
  unfolding worse better
  not_better-Above true a b h = ground (arith, o.flip_lt b a)
  not_better-Above false a b h = ground (arith, o.flip_gt b a)

  pub Above-refl : (asc : Bool) (a : A) → Above cmp asc a a
  unfolding worse
  Above-refl true a = ground (arith, o.flip_lt a a)
  Above-refl false a = ground (arith, o.flip_gt a a)

  pub Above-trans :
      (asc : Bool) (a b c : A) → Above cmp asc a b → Above cmp asc b c → Above cmp asc a c
  unfolding worse
  Above-trans true a b c h k =
      ground (arith, o.flip_gt b a, o.flip_gt c b, o.not_gt_trans c b a, o.flip_lt a c)
  Above-trans false a b c h k = ground (arith, o.not_gt_trans a b c)
