-- ===== src/MessagesQueue/Wait/Laws.antt =====
-- The reader of the queue gets every message, in order, unless a wait ends without a signal.
use mathlib.Core.List.{append_assoc}
use mathlib.Core.Path.{subst}
use ip_noise.Common.{
  ℕ, ◌+◌, ◌<◌, ◌≡◌, refl, sym, ap, ◌∙◌, ◌⊎◌, inl, inr, Bool, true, false, ◌||◌, Option, none, some,
  List, [], ◌∷◌, ◌++◌, arith, Bool-cases, length, length-append,
}
use ip_noise.MessagesQueue.{MessagesQueue, queue_alloc, enqueue, dequeue}
use ip_noise.MessagesQueue.Laws.{Linked, NotIn, last, IsQueue, enqueue-IsQueue, dequeue-IsQueue}
use ip_noise.MessagesQueue.Wait.{
  Place, Waiter, take_first, moves_on, signals, puts, may_move, WaiterStep, WaiterReached,
}

-- The messages that have come were taken, or wait, in order; a reader that waits without a signal has
-- an empty queue, and one with a signal has not.
pub record IsOrderly (w : Waiter) : Type 0 where
  pub queued : List ℕ
  pub is_queue : IsQueue w.queue queued
  pub in_order : w.come ≡ w.taken ++ queued
  pub asleep : w.place ≡ Place.blocked → w.signalled ≡ false → queued ≡ []
  pub awake : w.signalled ≡ true → (w.place ≡ Place.blocked) × (0 < length queued)

puts-IsOrderly :
    (w : Waiter) (msg : ℕ)
    → ((queued : List ℕ) → IsQueue w.queue queued → NotIn msg queued)
    → IsOrderly w
    → IsOrderly (puts msg w)
unfolding puts
puts-IsOrderly w msg new i =
    let q = enqueue-IsQueue w.queue i.is_queue msg (new i.queued i.is_queue) in
    let count : (enqueue w.queue msg).num_msgs ≡ length i.queued + 1 =
      omega (arith, q.count, length-append i.queued (msg ∷ [])) in
    let some_left : 0 < length (i.queued ++ msg ∷ []) =
      omega (arith, length-append i.queued (msg ∷ [])) in
    record {
      queued = i.queued ++ msg ∷ [];
      is_queue = q;
      in_order = ap (λ l. l ++ msg ∷ []) i.in_order ∙ append_assoc w.taken i.queued (msg ∷ []);
      asleep = λ p s.
          let (quiet, unheard) = both_false w.signalled _ s in
          absurd (
            lost w.place (enqueue w.queue msg) (length i.queued) p unheard count
              (ap length (i.asleep p quiet)));
      awake =
          λ s. (heard w.place w.signalled (enqueue w.queue msg) s (λ h. (i.awake h).0), some_left);
    }
  where
    both_false : (a b : Bool) → (a || b) ≡ false → (a ≡ false) × (b ≡ false)
    both_false a b h = ground arith

    lost :
        (p : Place) (q : MessagesQueue) (n : ℕ)
        → p ≡ Place.blocked
        → signals p q ≡ false
        → q.num_msgs ≡ n + 1
        → n ≡ 0
        → ⊥
    lost Place.calling q n p h c z = cc
    lost Place.blocked q n p h c z = ground arith

    heard :
        (p : Place) (b : Bool) (q : MessagesQueue)
        → (b || signals p q) ≡ true
        → (b ≡ true → p ≡ Place.blocked)
        → p ≡ Place.blocked
    heard Place.calling b q h k = k (ground arith)
    heard Place.blocked b q h k = refl

-- A reader that finds a message takes the first one.
take_first-IsOrderly :
    (w : Waiter) (i : IsOrderly w) (m : ℕ) (ms : List ℕ)
    → i.queued ≡ m ∷ ms
    → (v : Waiter) × (take_first w ≡ some v) × IsOrderly v × (v.taken ≡ w.taken ++ m ∷ [])
unfolding take_first
take_first-IsOrderly w i m ms e =
    let (q, h, k) = dequeue-IsQueue w.queue m ms (subst (IsQueue w.queue) e i.is_queue) in
    (
      record w { queue = q; place = Place.calling; signalled = false; taken = w.taken ++ m ∷ [] },
      rw h refl,
      record {
        queued = ms;
        is_queue = k;
        in_order = i.in_order ∙ ap (λ l. w.taken ++ l) e ∙ sym (append_assoc w.taken (m ∷ []) ms);
        asleep = λ p s. cc;
        awake = λ s. cc;
      },
      refl,
    )

-- The test of the head.
calling_head :
    (w : Waiter) (h : Option ℕ)
    → w.queue.head ≡ h
    → moves_on Place.calling w
      ≡ elim h [ none ↦ some (record w { place = Place.blocked }) | some msg ↦ take_first w ]
unfolding moves_on
calling_head w h e =
    let branch : Option ℕ → Option Waiter = (λ k. elim k [
      | none ↦ some (record w { place = Place.blocked })
      | some msg ↦ take_first w
    ]) in
    ap branch e

-- What one move of the reader does.
record Moves (w : Waiter) (run : Option Waiter) : Type 0 where
  after : Waiter
  runs : run ≡ some after
  orderly : IsOrderly after

List-cases : (l : List ℕ) → (l ≡ []) ⊎ ((m : ℕ) × (ms : List ℕ) × (l ≡ m ∷ ms))
List-cases [] = inl refl
List-cases (m ∷ ms) = inr (m, ms, refl)

moves_on-Moves :
    (p : Place) (w : Waiter)
    → w.place ≡ p
    → IsOrderly w
    → may_move p w.signalled ≡ true
    → Moves w (moves_on p w)
unfolding moves_on
moves_on-Moves Place.calling w p i h = elim (List-cases i.queued) [
  | inl e ↦
      let none_there : w.queue.head ≡ none =
        subst (Linked w.queue.next w.queue.head) e i.is_queue.linked in
      record {
        after = record w { place = Place.blocked };
        runs = calling_head w none none_there;
        orderly = record {
          queued = i.queued;
          is_queue = i.is_queue;
          in_order = i.in_order;
          asleep = λ q s. e;
          awake = λ s. let q = (i.awake s).0 in cc;
        };
      }
  | inr (m, ms, e) ↦
      let there = subst (Linked w.queue.next w.queue.head) e i.is_queue.linked in
      let (v, r, o, _) = take_first-IsOrderly w i m ms e in
      record { after = v; runs = calling_head w (some m) there.0 ∙ r; orderly = o }
]
moves_on-Moves Place.blocked w p i h = elim (List-cases i.queued) [
  | inl e ↦ absurd (omega (arith, (i.awake h).1, ap length e))
  | inr (m, ms, e) ↦
      let (v, r, o, _) = take_first-IsOrderly w i m ms e in
      record { after = v; runs = r; orderly = o }
]

WaiterStep-IsOrderly : {v w : Waiter} → WaiterStep v w → IsOrderly v → IsOrderly w
WaiterStep-IsOrderly {v} (WaiterStep.comes msg new) i = puts-IsOrderly v msg new i
WaiterStep-IsOrderly {v} {w} (WaiterStep.moves h e) i =
    let m = moves_on-Moves v.place v refl i h in
    let r = m.runs in let same : m.after ≡ w = cc in subst IsOrderly same m.orderly

WaiterReached-IsOrderly : {next : ℕ → Option ℕ} {w : Waiter} → WaiterReached next w → IsOrderly w
unfolding queue_alloc last
WaiterReached-IsOrderly WaiterReached.empties = record {
  queued = [];
  is_queue = record { linked = refl; distinct = tt; tail_is = refl; count = refl };
  in_order = refl;
  asleep = λ p s. refl;
  awake = λ s. cc;
}
WaiterReached-IsOrderly (WaiterReached.onward r t) =
    WaiterStep-IsOrderly t (WaiterReached-IsOrderly r)

-- What is known of a state: the reader can move, and its move uses no NULL, or it waits rightly.
pub record Goes (w : Waiter) : Type 0 where
  pub queued : List ℕ
  pub is_queue : IsQueue w.queue queued
  pub in_order : w.come ≡ w.taken ++ queued
  pub goes :
      ((v : Waiter) × (may_move w.place w.signalled ≡ true) × (moves_on w.place w ≡ some v))
      ⊎ ((w.place ≡ Place.blocked) × (w.signalled ≡ false) × (queued ≡ []))

-- In every state that the reader of the queue and those that put messages in reach together, where
-- no wait ends without a signal: the messages that the reader took and those in the queue, a
-- linked list, are the ones that came, in order; and either the reader may move, and then never
-- uses NULL as a message, or it waits, was not signalled, and the queue is empty. No signal is
-- lost, and no message is left behind a wait.
pub WaiterReached-Goes : {next : ℕ → Option ℕ} {w : Waiter} → WaiterReached next w → Goes w
WaiterReached-Goes {w = w} r =
    let i = WaiterReached-IsOrderly r in
    record {
      queued = i.queued;
      is_queue = i.is_queue;
      in_order = i.in_order;
      goes = elim (Bool-cases (may_move w.place w.signalled)) [
        | inl h ↦ let m = moves_on-Moves w.place w refl i h in inl (m.after, h, m.runs)
        | inr h ↦ let (p, s) = stays w.place w.signalled h in inr (p, s, i.asleep p s)
      ];
    }
  where
    stays : (p : Place) (b : Bool) → may_move p b ≡ false → (p ≡ Place.blocked) × (b ≡ false)
    stays Place.calling b h = cc
    stays Place.blocked b h = (refl, h)

-- In each state that the reader of the queue and those that put messages in reach together, where
-- no wait ended without a signal so far: if the reader waits and was not signalled, a wait that
-- ends all the same makes the reader use NULL as a message.
pub WaiterReached-spurious :
    {next : ℕ → Option ℕ} {w : Waiter}
    → WaiterReached next w
    → w.place ≡ Place.blocked
    → w.signalled ≡ false
    → moves_on Place.blocked w ≡ none
unfolding moves_on take_first dequeue
WaiterReached-spurious {w = w} r p s =
    let i = WaiterReached-IsOrderly r in
    let none_there : w.queue.head ≡ none =
      subst (Linked w.queue.next w.queue.head) (i.asleep p s) i.is_queue.linked in
    rw none_there refl
