-- ===== src/Kernel/Delayer/Order.antt =====
-- The entries are ordered by their times, and the queue gives the earliest one.
use mathlib.Core.List.Perm
use mathlib.Core.List.{Perm, Mem, mem-cons_self, mem-cons_of_mem}
use mathlib.Core.Path.{subst}
use ip_noise.Common.{ℕ, suc, ◌≤◌, ◌<◌, ◌≡◌, ◌∙◌, false, Option, some, List, [], ◌∷◌, arith}
use ip_noise.Kernel.Delayer.{Entry, entry_cmp}
use ip_noise.PQueue.{PQueue, peek_minimum, worse, pop}
use ip_noise.PQueue.Heap.{IsQueue, contents}
use ip_noise.PQueue.Order.{Orders, Above}
use ip_noise.PQueue.Pop.{pop-Takes}

pub entry_cmp-Orders : Orders entry_cmp
unfolding entry_cmp
entry_cmp-Orders = record {
  flip_gt = λ a b h. ground arith;
  flip_lt = λ a b h. ground arith;
  not_gt_trans = λ a b c h k. ground arith;
}

pub Above-le : (a b : Entry) → Above entry_cmp false a b → a.tv ≤ b.tv
unfolding worse entry_cmp
Above-le a b h = ground arith

-- Nothing of the list is before the time `t`.
abbrev pub NoneBefore : ℕ → List Entry → Type 0
NoneBefore t l = (a : Entry) → Mem a l → t ≤ a.tv

-- Each entry of the list is not after the later ones of the list.
abbrev pub InOrder : List Entry → Type 0
InOrder [] = Unit
InOrder (a ∷ l) = NoneBefore a.tv l × InOrder l

-- The queue of a kernel delayer: a heap by time, where no time is 0.
pub record IsEntries (pq : PQueue Entry) : Type 0 where
  pub valid : IsQueue entry_cmp pq
  pub earliest_first : pq.is_ascending ≡ false
  pub nonzero : NoneBefore 1 (contents pq)

-- The queue gives its earliest entry.
pub record EarliestEntry (pq : PQueue Entry) (run : Option (Option Entry × PQueue Entry))
    : Type 0 where
  pub taken : Entry
  pub after : PQueue Entry
  pub runs : run ≡ some (some taken, after)
  pub peek : peek_minimum pq ≡ some (some taken)
  pub valid : IsQueue entry_cmp after
  pub earliest_first : after.is_ascending ≡ false
  pub same : Perm (taken ∷ contents after) (contents pq)
  pub first : NoneBefore taken.tv (contents pq)
  pub size : suc after.current_size ≡ pq.current_size

pub pop-EarliestEntry :
    (pq : PQueue Entry)
    → IsQueue entry_cmp pq
    → pq.is_ascending ≡ false
    → 0 < pq.current_size
    → EarliestEntry pq (pop entry_cmp pq)
pop-EarliestEntry pq v asc p =
    let t = pop-Takes entry_cmp-Orders pq v p in
    record {
      taken = t.taken;
      after = t.after;
      runs = t.runs;
      peek = t.peek;
      valid = t.valid;
      earliest_first = t.direction ∙ asc;
      same = t.same;
      first =
          λ a m. Above-le t.taken a (subst (λ b. Above entry_cmp b t.taken a) asc (t.first a m));
      size = t.size;
    }

-- The entry that the queue gives, and the ones that it keeps, are of the queue.
module _ {pq : PQueue Entry} {run : Option (Option Entry × PQueue Entry)}
    (e : EarliestEntry pq run) where
  pub taken-Mem : Mem e.taken (contents pq)
  taken-Mem = (Perm.mem_iff e.same).0 mem-cons_self

  pub after-Mem : (a : Entry) → Mem a (contents e.after) → Mem a (contents pq)
  after-Mem a i = (Perm.mem_iff e.same).0 (mem-cons_of_mem e.taken i)

  pub after-IsEntries : IsEntries pq → IsEntries e.after
  after-IsEntries v = record {
    valid = e.valid;
    earliest_first = e.earliest_first;
    nonzero = λ a i. v.nonzero a (after-Mem a i);
  }
