-- ===== src/Switcher/Order.antt =====
-- The events are ordered by their times, and the queue of the switcher gives the earliest one.
use mathlib.Core.List.{Perm, Mem}
use mathlib.Core.Path.{subst}
use ip_noise.Common.{suc, ◌<◌, ◌≡◌, ◌∙◌, false, some, ◌∷◌, arith}
use ip_noise.Delayer.Order.{NotAfter}
use ip_noise.PQueue.{PQueue, peek_minimum, worse, push, pop}
use ip_noise.PQueue.Heap.{IsQueue, contents}
use ip_noise.PQueue.Order.{Orders, Above}
use ip_noise.PQueue.Pop.{pop-Takes}
use ip_noise.PQueue.Push.{push-Gives}
use ip_noise.Switcher.{Event, event_cmp}
use ip_noise.Time.{timeval_cmp}
use ip_noise.Time.Laws.{timeval_cmp-flip, timeval_cmp_trans}

pub event_cmp-Orders : Orders event_cmp
unfolding event_cmp timeval_cmp
event_cmp-Orders = record {
  flip_gt = λ a b. timeval_cmp-flip a.tv b.tv;
  flip_lt = λ a b h. ground arith;
  not_gt_trans = λ a b c. timeval_cmp_trans a.tv b.tv c.tv;
}

-- The queue of a switcher.
pub record IsEvents (pq : PQueue Event) : Type 0 where
  pub valid : IsQueue event_cmp pq
  pub earliest_first : pq.is_ascending ≡ false

earlier-NotAfter : (a b : Event) → Above event_cmp false a b → NotAfter a.tv b.tv
unfolding worse event_cmp
earlier-NotAfter a b h = ground arith

-- The queue has a first event.
pub record Offers (pq : PQueue Event) : Type 0 where
  pub taken : Event
  pub after : PQueue Event
  pub runs : pop event_cmp pq ≡ some (some taken, after)
  pub peek : peek_minimum pq ≡ some (some taken)
  pub events : IsEvents after
  pub same : Perm (taken ∷ contents after) (contents pq)
  pub first : (a : Event) → Mem a (contents pq) → NotAfter taken.tv a.tv
  pub size : suc after.current_size ≡ pq.current_size

pub IsEvents-Offers : (pq : PQueue Event) → IsEvents pq → 0 < pq.current_size → Offers pq
IsEvents-Offers pq v p =
    let t = pop-Takes event_cmp-Orders pq v.valid p in
    record {
      taken = t.taken;
      after = t.after;
      runs = t.runs;
      peek = t.peek;
      events = record { valid = t.valid; earliest_first = t.direction ∙ v.earliest_first };
      same = t.same;
      first = λ a m.
          earlier-NotAfter t.taken a
            (subst (λ asc. Above event_cmp asc t.taken a) v.earliest_first (t.first a m));
      size = t.size;
    }

pub push-IsEvents :
    (pq : PQueue Event) (e : Event)
    → IsEvents pq
    → (r : PQueue Event) × (push event_cmp pq e ≡ some r)
      × IsEvents r
      × Perm (contents r) (e ∷ contents pq)
push-IsEvents pq e v =
    let g = push-Gives event_cmp-Orders pq e v.valid in
    (
      g.after,
      g.runs,
      record { valid = g.valid; earliest_first = g.direction ∙ v.earliest_first },
      g.same,
    )
