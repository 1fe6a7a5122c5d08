-- ===== src/Packet/Delay/Laws.antt =====
-- A drawn probability that is below the first point of a delay function.
use Prim.Native.Nat.{Ordering}
use ip_noise.BinarySearch.Laws.{IsOrdered, Answer, bsearch-Finds}
use ip_noise.Common.{
  ℕ, zero, suc, ◌≡◌, refl, Bool, true, false, none, some, List, arith, get_elem?, get_elem?-defined,
}
use ip_noise.Model.{Externals, Point}
use ip_noise.Packet.Delay.{compare_points, point_before, split_linear_delay}

module _ (x : Externals) where
  no_point :
      (ps : List (Point x)) (p : x.Double) (found : Bool) (index : ℕ)
      → ((i : ℕ) (q : Point x) → get_elem? ps i ≡ some q → compare_points x p q ≡ Ordering.lt)
      → Answer (compare_points x p) ps (record { found = found; index = index })
      → point_before x ps index ≡ none
  unfolding point_before
  no_point ps p true index low (q, at, e) = let l = low index q at in cc
  no_point ps p false zero low b = refl
  no_point ps p false (suc i) low b =
      let (q, at) = get_elem?-defined ps 0 (omega (arith, b.inside)) in
      let l = low 0 q at in let g = b.before 0 (omega arith) at in cc

  -- For points in order, a drawn probability that compares as below every one of them makes the
  -- delay of a split linear function a read before the array of points, which is a fault.
  pub split_linear_delay-below :
      (ps : List (Point x)) (p : x.Double)
      → IsOrdered (compare_points x p) ps
      → ((i : ℕ) (q : Point x) → get_elem? ps i ≡ some q → compare_points x p q ≡ Ordering.lt)
      → split_linear_delay x ps p ≡ none
  unfolding split_linear_delay
  split_linear_delay-below ps p o low =
      let (r, e, a) = bsearch-Finds (compare_points x p) ps o in
      let n = no_point ps p r.found r.index low a in rw (e, n) refl
