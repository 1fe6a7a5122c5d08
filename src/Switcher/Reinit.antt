-- ===== src/Switcher/Reinit.antt =====
-- The switcher starts anew with one event for each chain.
use mathlib.Core.List.Perm
use mathlib.Core.List.{Perm, perm_middle, append-nil}
use mathlib.Core.Path.{subst}
use native.Mathlib.Decide.{ℕ_discrete}
use ip_noise.Common.{
  ℕ, zero, suc, ◌+◌, ◌<◌, ◌≡◌, refl, sym, ap, ◌∙◌, Option, some, List, [], ◌∷◌, ◌++◌, map, arith,
  length, get_elem?, set, length-set, get_elem?-defined,
}
use ip_noise.Model.{Externals, Timeval, Chain, now, after_now}
use ip_noise.PQueue.{PQueue}
use ip_noise.PQueue.Heap.{contents, not_empty, empty}
use ip_noise.PQueue.Items.{items}
use ip_noise.Switcher.{Event, drain, Switcher, start_chain, start_chains, reinit}
use ip_noise.Switcher.Order.{IsEvents, IsEvents-Offers, push-IsEvents}

drain_below :
    (fuel : ℕ) (pq : PQueue Event)
    → IsEvents pq
    → pq.current_size < fuel
    → (r : PQueue Event) × (drain fuel pq ≡ some r) × IsEvents r × (r.current_size ≡ 0)
unfolding drain
drain_below zero pq v l = absurd (omega arith)
drain_below (suc fuel) pq v l = elim (ℕ_discrete pq.current_size 0) [
  | yes z ↦ (pq, rw (empty pq z) refl, v, z)
  | no nz ↦
      let o = IsEvents-Offers pq v (ground arith) in
      let (r, e, w, z) = drain_below fuel o.after o.events (omega (arith, o.size)) in
      (r, rw (o.runs, not_empty pq (ground arith)) e, w, z)
]

-- The events for `left` chains from index `i` on.
unfoldable pub events_from : Timeval → ℕ → ℕ → List Event
events_from tv i zero = []
events_from tv i (suc left) = record { tv = tv; chain = i } ∷ events_from tv (i + 1) left

-- `f` on the entries from index `i` on.
unfoldable pub map_from : {A : Type 0} → (A → A) → ℕ → List A → List A
map_from f zero l = map f l
map_from f (suc i) [] = []
map_from f (suc i) (a ∷ l) = a ∷ map_from f i l

pub map_from-set :
    {A : Type 0} (f : A → A) (l : List A) (i : ℕ) {a : A}
    → get_elem? l i ≡ some a
    → map_from f (suc i) (set l i (f a)) ≡ map_from f i l
unfolding map_from
map_from-set f [] i h = cc
map_from-set f (b ∷ l) zero {a} h = let q : b ≡ a = cc in rw q refl
map_from-set f (b ∷ l) (suc i) h = ap (◌∷◌ b) (map_from-set f l i h)

pub map_from-length : {A : Type 0} (f : A → A) (l : List A) → map_from f (length l) l ≡ l
unfolding map_from
map_from-length f [] = refl
map_from-length f (a ∷ l) = ap (◌∷◌ a) (map_from-length f l)

without_rest : {A : Type 0} {l m n : List A} → n ≡ [] → Perm l (m ++ n) → Perm l m
without_rest {l = l} {m = m} e p = subst (Perm l) (append-nil m) (subst (λ t. Perm l (m ++ t)) e p)

pub no_contents : {A : Type 0} (q : PQueue A) → q.current_size ≡ 0 → contents q ≡ []
unfolding items
no_contents q e = rw e refl

module _ {x : Externals} where
  -- A chain in its first state.
  abbrev pub at_start : Chain x → Chain x
  at_start c = record c { current_state = some 0 }

  -- The rounds have a result: the chains from `i` on are at their start, and have their events.
  record Starts (tv : Timeval) (left i : ℕ) (s : Switcher x) (run : Option (Switcher x))
      : Type 0 where
    after : Switcher x
    runs : run ≡ some after
    events : IsEvents after.pq
    same : Perm (contents after.pq) (events_from tv i left ++ contents s.pq)
    chains : after.chains ≡ map_from at_start i s.chains
    env : after.env ≡ s.env

  start_chains-Starts :
      (tv : Timeval) (left i : ℕ) (s : Switcher x)
      → IsEvents s.pq
      → i + left ≡ length s.chains
      → Starts tv left i s (start_chains x tv left i s)
  unfolding start_chains start_chain events_from
  start_chains-Starts tv zero i s v l =
      let e : i ≡ length s.chains = omega (arith, l) in
      record {
        after = s;
        runs = refl;
        events = v;
        same = Perm.rfl;
        chains = rw e (sym (map_from-length at_start s.chains));
        env = refl;
      }
  start_chains-Starts tv (suc left) i s v l =
      let (c, e) = get_elem?-defined s.chains i (omega (arith, l)) in
      let (r, p, w, k) = push-IsEvents s.pq (record { tv = tv; chain = i }) v in
      let s' : Switcher x = record s { pq = r; chains = set s.chains i (at_start c) } in
      let n : i + 1 + left ≡ length s'.chains =
        omega (arith, l, length-set s.chains i (at_start c)) in
      let rest = start_chains-Starts tv left (i + 1) s' w n in
      record {
        after = rest.after;
        runs = rw (e, p) rest.runs;
        events = rest.events;
        same = Perm.trans rest.same (Perm.trans (Perm.append_left _ k) (perm_middle _ _));
        chains =
            rest.chains
            ∙ ap (λ j. map_from at_start j (set s.chains i (at_start c))) (omega arith)
            ∙ map_from-set at_start s.chains i e;
        env = rest.env;
      }

  -- The switcher has a result: an event for each chain, at the current time, and each chain in its first
  -- state.
  pub record Restarts (s : Switcher x) (run : Option (Switcher x)) : Type 0 where
    pub after : Switcher x
    pub runs : run ≡ some after
    pub events : IsEvents after.pq
    pub same : Perm (contents after.pq) (events_from (now s.env) 0 (length s.chains))
    pub chains : after.chains ≡ map at_start s.chains
    pub env : after.env ≡ after_now s.env

  pub reinit-Restarts : (s : Switcher x) → IsEvents s.pq → Restarts s (reinit x s)
  unfolding reinit map_from items
  reinit-Restarts s v =
      let (r, e, w, z) = drain_below (suc s.pq.current_size) s.pq v (omega arith) in
      let rest =
        start_chains-Starts (now s.env) (length s.chains) 0
          (record s { pq = r; env = after_now s.env }) w (omega arith) in
      record {
        after = rest.after;
        runs = rw e rest.runs;
        events = rest.events;
        same = without_rest (no_contents r z) rest.same;
        chains = rest.chains;
        env = rest.env;
      }
