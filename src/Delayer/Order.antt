-- ===== src/Delayer/Order.antt =====
-- The elements of the delayer are ordered by their times, and its queue gives the earliest one.
use Prim.Native.Nat.{Ordering}
use mathlib.Core.List.{Perm, Mem}
use mathlib.Core.Path.{subst}
use ip_noise.Common.{suc, ◌<◌, ◌≡◌, ◌∙◌, ◌≢◌, true, false, Option, some, List, [], ◌∷◌, arith}
use ip_noise.Delayer.{Delayed, delayed_cmp, is_due}
use ip_noise.Model.{Timeval}
use ip_noise.PQueue.{PQueue, peek_minimum, worse, pop}
use ip_noise.PQueue.Heap.{IsQueue, contents}
use ip_noise.PQueue.Order.{Orders, Above}
use ip_noise.PQueue.Pop.{pop-Takes}
use ip_noise.Time.{timeval_cmp}
use ip_noise.Time.Laws.{timeval_cmp-flip, timeval_cmp_trans}

pub delayed_cmp-Orders : Orders delayed_cmp
unfolding delayed_cmp timeval_cmp
delayed_cmp-Orders = record {
  flip_gt = λ a b. timeval_cmp-flip a.tv b.tv;
  flip_lt = λ a b h. ground arith;
  not_gt_trans = λ a b c. timeval_cmp_trans a.tv b.tv c.tv;
}

-- `a` is not later than `b`.
abbrev pub NotAfter : Timeval → Timeval → Type 0
NotAfter a b = timeval_cmp a b ≢ Ordering.gt

pub Above-NotAfter : (a b : Delayed) → Above delayed_cmp false a b → NotAfter a.tv b.tv
unfolding worse delayed_cmp
Above-NotAfter a b h = ground arith

-- Nothing of the queue is before the time `w`.
abbrev pub NoneBefore : Timeval → List Delayed → Type 0
NoneBefore w l = (a : Delayed) → Mem a l → NotAfter w a.tv

-- Each message of the list is not after the later ones of the list.
abbrev pub InOrder : List Delayed → Type 0
InOrder [] = Unit
InOrder (a ∷ l) = NoneBefore a.tv l × InOrder l

-- The queue of a delayer.
pub record IsDelayer (pq : PQueue Delayed) : Type 0 where
  pub valid : IsQueue delayed_cmp pq
  pub earliest_first : pq.is_ascending ≡ false

pub due-NotAfter : (a : Delayed) (now : Timeval) → is_due a now ≡ true → NotAfter a.tv now
unfolding is_due
due-NotAfter a now h = ground arith

pub not_due :
    (a : Delayed) (now : Timeval) → is_due a now ≡ false → timeval_cmp a.tv now ≡ Ordering.gt
unfolding is_due
not_due a now h = ground arith

-- What is not before a time after `now` is itself after `now`.
pub later_than_now :
    (now a b : Timeval)
    → timeval_cmp a now ≡ Ordering.gt
    → NotAfter a b
    → timeval_cmp now b ≡ Ordering.lt
unfolding timeval_cmp
later_than_now now a b h k = ground arith

-- The queue gives its earliest message.
pub record Earliest (pq : PQueue Delayed) (run : Option (Option Delayed × PQueue Delayed))
    : Type 0 where
  pub taken : Delayed
  pub after : PQueue Delayed
  pub runs : run ≡ some (some taken, after)
  pub peek : peek_minimum pq ≡ some (some taken)
  pub valid : IsDelayer after
  pub same : Perm (taken ∷ contents after) (contents pq)
  pub first : NoneBefore taken.tv (contents pq)
  pub size : suc after.current_size ≡ pq.current_size

pub pop-Earliest :
    (pq : PQueue Delayed) → IsDelayer pq → 0 < pq.current_size → Earliest pq (pop delayed_cmp pq)
pop-Earliest pq v p =
    let t = pop-Takes delayed_cmp-Orders pq v.valid p in
    record {
      taken = t.taken;
      after = t.after;
      runs = t.runs;
      peek = t.peek;
      valid = record { valid = t.valid; earliest_first = t.direction ∙ v.earliest_first };
      same = t.same;
      first = λ a m.
          Above-NotAfter t.taken a
            (subst (λ asc. Above delayed_cmp asc t.taken a) v.earliest_first (t.first a m));
      size = t.size;
    }
