-- ===== src/Switcher/Handle.antt =====
-- An event that is over gives way to the next one of its chain.
use mathlib.Core.List.Perm
use mathlib.Core.Logic.Or
use mathlib.Core.List.{Perm, Mem, eq-or-mem_of_mem-cons, mem-cons_self, mem-cons_of_mem}
use native.Mathlib.Bridge.{le_prop}
use ip_noise.Common.{
  ◌<◌, ◌≡◌, refl, false, Option, some, ◌∷◌, length, set, length-set, get_elem?-set_self,
  get_elem?-defined,
}
use ip_noise.Delayer.Order.{NotAfter}
use ip_noise.Iface.Sound.{AllOf, AllOf-get, AllOf-set}
use ip_noise.Model.{Externals, Timeval, Chain, now, after_now, after_rand}
use ip_noise.PQueue.{PQueue, push}
use ip_noise.PQueue.Heap.{contents}
use ip_noise.Switcher.{Event, event_cmp, Switcher, switch_chain, get_new_switch_event, handle_event}
use ip_noise.Switcher.Order.{IsEvents, Offers, push-IsEvents}
use ip_noise.Switcher.Switch.{Runs, switch_chain-Runs, get_new_switch_event_later}

module _ {x : Externals} where
  -- A switcher that can work: an ordered queue of events of its chains, which all run.
  pub record IsReady (s : Switcher x) : Type 0 where
    pub events : IsEvents s.pq
    pub chains : AllOf Runs s.chains
    pub settled : s.reinit_switcher ≡ false
    pub known : (a : Event) → Mem a (contents s.pq) → a.chain < length s.chains

  -- The run has a result: one event was taken and another one made, for the same chain and not before
  -- the time of the call.
  pub record Handles (s : Switcher x) (o : Offers s.pq) (run : Option (Switcher x)) : Type 0 where
    pub after : Switcher x
    pub runs : run ≡ some after
    pub ready : IsReady after
    pub made : Event
    pub same : Perm (contents after.pq) (made ∷ contents o.after)
    pub chain : made.chain ≡ o.taken.chain
    pub later : NotAfter (now s.env) made.tv
    pub env : after.env ≡ after_rand (after_now (after_rand s.env))

  handle_run :
      (s : Switcher x) (o : Offers s.pq) (d : Chain x) (t : Timeval) (q : PQueue Event)
      → switch_chain x o.taken.chain (record s { pq = o.after })
        ≡ some (record s {
          pq = o.after;
          chains = set s.chains o.taken.chain d;
          env = after_rand s.env;
        })
      → get_new_switch_event x o.taken.chain
          (record s { pq = o.after; chains = set s.chains o.taken.chain d; env = after_rand s.env })
        ≡ some (
          record { tv = t; chain = o.taken.chain },
          record s {
            pq = o.after;
            chains = set s.chains o.taken.chain d;
            env = after_rand (after_now (after_rand s.env));
          },
        )
      → push event_cmp o.after (record { tv = t; chain = o.taken.chain }) ≡ some q
      → handle_event x o.taken s
        ≡ some (record s {
          pq = q;
          chains = set s.chains o.taken.chain d;
          env = after_rand (after_now (after_rand s.env));
        })
  unfolding handle_event
  handle_run s o d t q h k p = rw (o.runs, h, k, p) refl

  pub handle_event-Handles :
      (s : Switcher x) (o : Offers s.pq) → IsReady s → Handles s o (handle_event x o.taken s)
  unfolding after_rand now
  handle_event-Handles s o v =
      let i = o.taken.chain in
      let l : i < length s.chains = v.known o.taken ((Perm.mem_iff o.same).0 mem-cons_self) in
      let (c, e) = get_elem?-defined s.chains i l in
      let (d, h, w) =
        switch_chain-Runs (record s { pq = o.after }) i e (AllOf-get Runs s.chains i v.chains e) in
      let s' : Switcher x = record s {
        pq = o.after;
        chains = set s.chains i d;
        env = after_rand s.env;
      } in
      let (t, k, later) = get_new_switch_event_later s' i (get_elem?-set_self s.chains i d l) w in
      let (q, p, u, same) = push-IsEvents o.after (record { tv = t; chain = i }) o.events in
      record {
        after = record s' { pq = q; env = after_rand (after_now (after_rand s.env)) };
        runs = handle_run s o d t q h k p;
        ready = record {
          events = u;
          chains = AllOf-set Runs s.chains i v.chains w;
          settled = v.settled;
          known = λ a m. rw (length-set s.chains i d) (
              Or.elim le_prop (eq-or-mem_of_mem-cons ((Perm.mem_iff same).0 m)) (λ z. rw z l)
                (λ z. v.known a ((Perm.mem_iff o.same).0 (mem-cons_of_mem o.taken z))));
        };
        made = record { tv = t; chain = i };
        same = same;
        chain = refl;
        later = later;
        env = refl;
      }
