-- ===== src/MessagesQueue/Laws.antt =====
-- The queue of messages as the list of their addresses.
use ip_noise.Common.{
  ℕ, ◌≡◌, refl, sym, ap, ◌∙◌, ◌≢◌, Option, none, some, List, [], ◌∷◌, ◌++◌, arith, length,
  length-append,
}
use ip_noise.MessagesQueue.{MessagesQueue, set_next, enqueue, dequeue}

-- From `h` on, the messages of the list are linked in order.
abbrev pub Linked : (ℕ → Option ℕ) → Option ℕ → List ℕ → Type 0
Linked next h [] = h ≡ none
Linked next h (m ∷ ms) = (h ≡ some m) × Linked next (next m) ms

abbrev pub NotIn : ℕ → List ℕ → Type 0
NotIn m [] = Unit {0}
NotIn m (i ∷ is) = (m ≢ i) × NotIn m is

abbrev pub Distinct : List ℕ → Type 0
Distinct [] = Unit {0}
Distinct (m ∷ ms) = NotIn m ms × Distinct ms

unfoldable pub last : List ℕ → Option ℕ
last [] = none
last (m ∷ []) = some m
last (m ∷ i ∷ is) = last (i ∷ is)

-- The queue is the linked list of the messages.
pub record IsQueue (q : MessagesQueue) (ms : List ℕ) : Type 0 where
  pub linked : Linked q.next q.head ms
  pub distinct : Distinct ms
  pub tail_is : q.tail ≡ last ms
  pub count : q.num_msgs ≡ length ms

last-append : (ms : List ℕ) (m : ℕ) → last (ms ++ m ∷ []) ≡ some m
unfolding last
last-append [] m = refl
last-append (i ∷ []) m = refl
last-append (i ∷ j ∷ ms) m = last-append (j ∷ ms) m

NotIn-last : (ms : List ℕ) (m : ℕ) {t : ℕ} → NotIn m ms → last ms ≡ some t → m ≢ t
unfolding last
NotIn-last [] m h e = cc
NotIn-last (i ∷ []) m h e = λ q. h.0 (ground arith)
NotIn-last (i ∷ j ∷ ms) m h e = NotIn-last (j ∷ ms) m h.1 e

NotIn-append : (ms : List ℕ) (m i : ℕ) → NotIn m ms → m ≢ i → NotIn m (ms ++ i ∷ [])
NotIn-append [] m i h n = (n, tt)
NotIn-append (j ∷ ms) m i h n = (h.0, NotIn-append ms m i h.1 n)

Distinct-append : (ms : List ℕ) (m : ℕ) → Distinct ms → NotIn m ms → Distinct (ms ++ m ∷ [])
Distinct-append [] m d n = (tt, tt)
Distinct-append (i ∷ ms) m d n =
    (NotIn-append ms i m d.0 (λ q. n.0 (ground arith)), Distinct-append ms m d.1 n.1)

set_next_self : (next : ℕ → Option ℕ) (m : ℕ) (v : Option ℕ) → set_next next m v m ≡ v
unfolding set_next
set_next_self next m v = ground arith

set_next_other :
    (next : ℕ → Option ℕ) (m i : ℕ) (v : Option ℕ) → m ≢ i → set_next next m v i ≡ next i
unfolding set_next
set_next_other next m i v n = ground arith

-- A message that is linked behind the last one.
Linked-append :
    (next : ℕ → Option ℕ) (ms : List ℕ) (h : Option ℕ) (m : ℕ) {t : ℕ}
    → Linked next h ms
    → Distinct ms
    → NotIn m ms
    → last ms ≡ some t
    → Linked (set_next (set_next next t (some m)) m none) h (ms ++ m ∷ [])
unfolding last
Linked-append next [] h m l d n e = cc
Linked-append next (i ∷ []) h m {t} l d n e =
    let same : i ≡ t = ground arith in
    let at : set_next (set_next next t (some m)) m none i ≡ some m =
      set_next_other (set_next next t (some m)) m i none n.0
      ∙ rw same (set_next_self next t (some m)) in
    (l.0, (at, set_next_self (set_next next t (some m)) m none))
Linked-append next (i ∷ j ∷ ms) h m {t} l d n e =
    let away : t ≢ i = (λ q. NotIn-last (j ∷ ms) i d.0 e (sym q)) in
    let at : set_next (set_next next t (some m)) m none i ≡ next i =
      set_next_other (set_next next t (some m)) m i none n.0
      ∙ set_next_other next t i (some m) away in
    (l.0, rw at (Linked-append next (j ∷ ms) (next i) m l.1 d.1 n.1 e))

last-none : (ms : List ℕ) → last ms ≡ none → ms ≡ []
unfolding last
last-none [] e = refl
last-none (i ∷ []) e = cc
last-none (i ∷ j ∷ ms) e = let z = last-none (j ∷ ms) e in cc

module _ (q : MessagesQueue) {ms : List ℕ} (h : IsQueue q ms) where
  enqueued :
      (m : ℕ) (t : Option ℕ)
      → t ≡ q.tail
      → NotIn m ms
      → IsQueue (enqueue (record q { tail = t }) m) (ms ++ m ∷ [])
  unfolding enqueue last
  enqueued m none e n =
      let z = last-none ms (sym (e ∙ h.tail_is)) in
      rw z (record {
        linked = (refl, set_next_self q.next m none);
        distinct = (tt, tt);
        tail_is = refl;
        count = omega (arith, h.count, ap length z);
      })
  enqueued m (some t) e n = record {
    linked = Linked-append q.next ms q.head m h.linked h.distinct n (sym (e ∙ h.tail_is));
    distinct = Distinct-append ms m h.distinct n;
    tail_is = sym (last-append ms m);
    count = omega (arith, h.count, length-append ms (m ∷ []));
  }

  -- Enqueueing a message that is not in the queue appends it: a queue that is the linked list of
  -- some messages, each there once, with the last of them as its tail and their number as its
  -- count, is left as that of these messages and the new one.
  pub enqueue-IsQueue : (m : ℕ) → NotIn m ms → IsQueue (enqueue q m) (ms ++ m ∷ [])
  enqueue-IsQueue m n = enqueued m q.tail refl n

tail_after :
    (q : MessagesQueue) (m : ℕ) (ms : List ℕ)
    → IsQueue q (m ∷ ms)
    → elim (q.next m) [ none ↦ none | some i ↦ q.tail ] ≡ last ms
unfolding last
tail_after q m [] h = rw h.linked.1 refl
tail_after q m (i ∷ ms) h = rw h.linked.1.0 h.tail_is

-- From a queue that is the linked list of a first message and others, dequeue returns the first,
-- and leaves the queue of the others, with their tail and their count.
pub dequeue-IsQueue :
    (q : MessagesQueue) (m : ℕ) (ms : List ℕ)
    → IsQueue q (m ∷ ms)
    → (q' : MessagesQueue) × (dequeue q ≡ some (m, q')) × IsQueue q' ms
unfolding dequeue
dequeue-IsQueue q m ms h = rw h.linked.0 (
  _,
  refl,
  record {
    linked = h.linked.1;
    distinct = h.distinct.1;
    tail_is = tail_after q m ms h;
    count = omega (arith, h.count);
  },
)
