-- ===== src/Kernel/Delayer/Release.antt =====
-- The loop of ip_noise_delayer_check_pq releases what is due.
use mathlib.Core.List.Perm
use mathlib.Core.List
use mathlib.Core.Logic.Or
use mathlib.Core.List.{Perm, Mem, eq-or-mem_of_mem-cons, not-mem-nil, mem-append_left}
use mathlib.Core.Path.{subst}
use native.Mathlib.Bridge.{le_prop}
use native.Mathlib.Decide.{ℕ_discrete}
use ip_noise.Common.{
  ℕ, zero, suc, ◌≤◌, ◌<◌, ◌≡◌, refl, inl, inr, false, Option, some, List, [], ◌∷◌, ◌++◌, map, arith,
  ltb, ◌==◌, ltb→lt, Bool-cases,
}
use ip_noise.Common.Fault.{◌>>=◌}
use ip_noise.Kernel.Delayer.{Entry, entry_cmp, first_tv, release_entries}
use ip_noise.Kernel.Delayer.Order.{
  NoneBefore, InOrder, IsEntries, EarliestEntry, pop-EarliestEntry, taken-Mem, after-Mem,
  after-IsEntries,
}
use ip_noise.PQueue.{PQueue, pop}
use ip_noise.PQueue.Heap.{contents, not_empty, empty}
use ip_noise.PQueue.Items.{items}

-- The timer for the time `t` is for the earliest entry of the list.
abbrev pub IsFirst : ℕ → List Entry → Type 0
IsFirst t l = Mem t (map (λ a. a.tv) l) × NoneBefore t l

-- The run has a result: `released` are the entries of the queue with times up to `now`, in order, and
-- the queue behind it has the others; unless it is empty, `msg` has the time of its first entry.
pub record ReleasesEntries (now : ℕ) (pq : PQueue Entry)
    (run : Option (List Entry × PQueue Entry × Option ℕ)) : Type 0 where
  pub released : List Entry
  pub after : PQueue Entry
  pub msg : Option ℕ
  pub runs : run ≡ some (released, after, msg)
  pub valid : IsEntries after
  pub same : Perm (released ++ contents after) (contents pq)
  pub due : (a : Entry) → Mem a released → a.tv ≤ now
  pub in_order : InOrder released
  pub left : NoneBefore (suc now) (contents after)
  pub stopped : 0 < after.current_size → (t : ℕ) × (msg ≡ some t) × IsFirst t (contents after)

empty-ReleasesEntries :
    (now : ℕ) (pq : PQueue Entry) (msg : Option ℕ)
    → IsEntries pq
    → pq.current_size ≡ 0
    → ReleasesEntries now pq (some ([], pq, msg))
unfolding items
empty-ReleasesEntries now pq msg v z = record {
  released = [];
  after = pq;
  msg = msg;
  runs = refl;
  valid = v;
  same = Perm.rfl;
  due = λ a m. absurd (not-mem-nil m);
  in_order = tt;
  left = λ a m. absurd (not-mem-nil (subst (λ n. Mem a (items pq.elements n)) z m));
  stopped = λ p. absurd (omega arith);
}

-- The first entry is not due.
stop-ReleasesEntries :
    (now : ℕ) (pq : PQueue Entry) (e : EarliestEntry pq (pop entry_cmp pq))
    → IsEntries pq
    → now < e.taken.tv
    → ReleasesEntries now pq (some ([], pq, some e.taken.tv))
stop-ReleasesEntries now pq e v l = record {
  released = [];
  after = pq;
  msg = some e.taken.tv;
  runs = refl;
  valid = v;
  same = Perm.rfl;
  due = λ a m. absurd (not-mem-nil m);
  in_order = tt;
  left = λ a m. omega (arith, e.first a m);
  stopped = λ p. (e.taken.tv, refl, (List.mem-map_of_mem (λ a. a.tv) (taken-Mem e), e.first));
}

-- The first entry is due.
go-ReleasesEntries :
    (fuel now : ℕ) (pq : PQueue Entry) (e : EarliestEntry pq (pop entry_cmp pq))
    → e.taken.tv ≤ now
    → ReleasesEntries now e.after (release_entries fuel now (some e.taken.tv) e.after)
    → ReleasesEntries now pq
        (release_entries fuel now (some e.taken.tv) e.after >>= λ l. some (e.taken ∷ l.0, l.1, l.2))
go-ReleasesEntries fuel now pq e d rest = record {
  released = e.taken ∷ rest.released;
  after = rest.after;
  msg = rest.msg;
  runs = rw rest.runs refl;
  valid = rest.valid;
  same = Perm.trans (Perm.cons e.taken rest.same) e.same;
  due = λ a m. Or.elim le_prop (eq-or-mem_of_mem-cons m) (λ q. rw q d) (rest.due a);
  in_order = (
    λ a m.
        e.first a
          (after-Mem e a ((Perm.mem_iff rest.same).0 (mem-append_left (contents rest.after) m))),
    rest.in_order,
  );
  left = rest.left;
  stopped = rest.stopped;
}

round-ReleasesEntries :
    (fuel now : ℕ) (msg : Option ℕ) (pq : PQueue Entry) (e : EarliestEntry pq (pop entry_cmp pq))
    → IsEntries pq
    → 0 < pq.current_size
    → ReleasesEntries now e.after (release_entries fuel now (some e.taken.tv) e.after)
    → ReleasesEntries now pq (release_entries (suc fuel) now msg pq)
unfolding release_entries first_tv
round-ReleasesEntries fuel now msg pq e v p rest =
    let t = not_empty pq p in
    let z : (e.taken.tv == 0) ≡ false = ground (arith, v.nonzero e.taken (taken-Mem e)) in
    rw (e.peek, e.runs, t, z)
      (elim (Bool-cases (ltb now e.taken.tv)) [
        | inl c ↦ rw c (stop-ReleasesEntries now pq e v (ltb→lt _ _ c))
        | inr c ↦ rw c (go-ReleasesEntries fuel now pq e (ground arith) rest)
      ])

-- The loop ends within one round for each entry and one more.
pub release_entries-Releases :
    (fuel now : ℕ) (msg : Option ℕ) (pq : PQueue Entry)
    → IsEntries pq
    → pq.current_size < fuel
    → ReleasesEntries now pq (release_entries fuel now msg pq)
unfolding release_entries
release_entries-Releases zero now msg pq v l = absurd (omega arith)
release_entries-Releases (suc fuel) now msg pq v l = elim (ℕ_discrete pq.current_size 0) [
  | yes z ↦ let t = empty pq z in rw t (empty-ReleasesEntries now pq msg v z)
  | no nz ↦
      let p : 0 < pq.current_size = ground arith in
      let e = pop-EarliestEntry pq v.valid v.earliest_first p in
      round-ReleasesEntries fuel now msg pq e v p (
        release_entries-Releases fuel now (some e.taken.tv) e.after (after-IsEntries e v)
          (omega (arith, e.size)))
]
