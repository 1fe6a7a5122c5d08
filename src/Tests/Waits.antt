-- ===== src/Tests/Waits.antt =====
-- The reader of the queue of messages waits, and a message comes.
use ip_noise.Common.{ℕ, ◌≡◌, refl, false, Option, none, List, [], ◌∷◌}
use ip_noise.MessagesQueue.{queue_alloc}
use ip_noise.MessagesQueue.Laws.{NotIn, IsQueue}
use ip_noise.MessagesQueue.Wait.{Place, Waiter, moves_on, puts, WaiterStep, WaiterReached}
use ip_noise.MessagesQueue.Wait.Laws.{Goes, WaiterReached-Goes, WaiterReached-spurious}

abbrev unlinked : ℕ → Option ℕ
unlinked m = none

abbrev quiet : Waiter
quiet = record {
  queue = queue_alloc unlinked;
  place = Place.calling;
  signalled = false;
  come = [];
  taken = [];
}

waits-Reached : WaiterReached unlinked (record quiet { place = Place.blocked })
unfolding moves_on queue_alloc
waits-Reached = WaiterReached.onward WaiterReached.empties (WaiterStep.moves refl refl)

WaiterReached-spurious_example :
    moves_on Place.blocked (record quiet { place = Place.blocked }) ≡ none
WaiterReached-spurious_example = WaiterReached-spurious waits-Reached refl refl

not_queued : (queued : List ℕ) → IsQueue (queue_alloc unlinked) queued → NotIn 5 queued
unfolding queue_alloc
not_queued [] h = tt
not_queued (m ∷ ms) h = let e = h.linked.0 in cc

WaiterReached-Goes_example : Goes (puts 5 (record quiet { place = Place.blocked }))
WaiterReached-Goes_example =
    WaiterReached-Goes (WaiterReached.onward waits-Reached (WaiterStep.comes 5 not_queued))
