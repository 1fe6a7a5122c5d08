-- ===== src/Iface/Sound/Session.antt =====
-- The connections to the arbitrator, one after the other, as steps of C/arbitrator/iface.c.
use ip_noise.TextQueue.In
use ip_noise.TextQueue.Out
use ip_noise.Common.{ℕ, ◌≡◌, refl, ◌∙◌, Bool, true, false, List, arith, length, length-map}
use ip_noise.Iface.Connection.{Server, init_connection, close_connection}
use ip_noise.Iface.Monad.{Iface, done}
use ip_noise.Iface.Sound.{ChainFits, DataFits, IsSound, AllOf-map}
use ip_noise.Iface.Sound.Transact.{transact-IsSound}
use ip_noise.Iface.Transact.{transact}
use ip_noise.Iface.Transact.ReadOnly.{holds_itself}
use ip_noise.Model.{Externals, State, Chain, Data}
use ip_noise.Model.Alloc.{
  data_alloc, filter_duplicate, state_duplicate, chain_duplicate, data_duplicate,
}
use ip_noise.TextQueue.In.{put_bytes, set_conn_closed}
use ip_noise.TextQueue.In.Laws.{put_bytes-Holds}
use ip_noise.TextQueue.Out.{write_bytes}
use ip_noise.TextQueue.Out.Laws.{write_bytes-pending}

module _ {x : Externals} where
  -- What changes the state of the server: bytes come in or go out, the peer closes its end, a
  -- transaction runs and returns (one that makes the process exit, or whose behaviour is undefined, has
  -- no state behind it), or, once the loop of ip_noise_arbitrator_iface_loop ends, the connection is closed
  -- and the next one accepted.
  pub data Step : Server x → Server x → Type 0 where
    receives :
        (s : Server x) (bytes : List ℕ)
        → Step s (record s {
          iface = record s.iface { text_queue_in = put_bytes s.iface.text_queue_in bytes };
        })
    hangs_up :
        (s : Server x)
        → Step s (record s {
          iface = record s.iface { text_queue_in = set_conn_closed s.iface.text_queue_in };
        })
    sends :
        (s : Server x) (n : ℕ)
        → Step s (record s {
          iface = record s.iface { text_queue_out = (write_bytes s.iface.text_queue_out n).1 };
        })
    transacts :
        (s : Server x)
        → s.iface.continue ≡ true
        → (transact x s.iface).0 ≡ done tt
        → Step s (record s { iface = (transact x s.iface).1 })
    reconnects :
        (s : Server x) (g h : ℕ → ℕ)
        → s.iface.continue ≡ false
        → Step s (init_connection x g h (close_connection x s))

  -- The states since the first connection, for any contents of the fields before it.
  pub data Reached : Server x → Type 0 where
    start :
        (i : Iface x) (b : Bool) (g h : ℕ → ℕ)
        → Reached (
            init_connection x g h
              (record { data_in_use = data_alloc x; reinit_switcher = b; iface = i }))
    then : {s t : Server x} → Reached s → Step s t → Reached t

module _ (x : Externals) where
  state_duplicate-moves : (s : State x) → length (state_duplicate x s).move_tos ≡ length s.move_tos
  unfolding state_duplicate
  state_duplicate-moves s = refl

  chain_duplicate-ChainFits : (c : Chain x) → ChainFits x c → ChainFits x (chain_duplicate x c)
  unfolding chain_duplicate filter_duplicate
  chain_duplicate-ChainFits c f =
      let l = length-map c.states (state_duplicate x) in
      let n = length c.states in
      record {
        capacity = rw l f.capacity;
        moves = rw l (
            AllOf-map (λ s. length s.move_tos ≡ n) (λ s. length s.move_tos ≡ n) (state_duplicate x)
              c.states (λ s e. state_duplicate-moves s ∙ e) f.moves);
        protocols = f.protocols;
        tos = f.tos;
      }

  data_duplicate-DataFits : (d : Data x) → DataFits x d → DataFits x (data_duplicate x d)
  unfolding data_duplicate
  data_duplicate-DataFits d f = record {
    capacity = rw (length-map d.chains (chain_duplicate x)) f.capacity;
    chains =
        AllOf-map (ChainFits x) (ChainFits x) (chain_duplicate x) d.chains chain_duplicate-ChainFits
          f.chains;
  }

  -- Both copies of the data are well formed.
  pub record ServerFits (s : Server x) : Type 0 where
    pub data_in_use : DataFits x s.data_in_use
    pub iface : IsSound x s.iface

  pub init_connection-ServerFits :
      (s : Server x) (g h : ℕ → ℕ) → DataFits x s.data_in_use → ServerFits (init_connection x g h s)
  unfolding init_connection In.alloc Out.alloc
  init_connection-ServerFits s g h f = record {
    data_in_use = f;
    iface = record {
      input = record { position = omega arith; inside = omega arith };
      output = record { position = omega arith; inside = omega arith };
      data_copy = data_duplicate-DataFits s.data_in_use f;
    };
  }

  pub Step-ServerFits : {s t : Server x} → Step s t → ServerFits s → ServerFits t
  unfolding close_connection set_conn_closed
  Step-ServerFits (Step.receives s bytes) f = record {
    data_in_use = f.data_in_use;
    iface = record {
      input =
          (put_bytes-Holds s.iface.text_queue_in (holds_itself s.iface f.iface.input) bytes).valid;
      output = f.iface.output;
      data_copy = f.iface.data_copy;
    };
  }
  Step-ServerFits (Step.hangs_up s) f = record {
    data_in_use = f.data_in_use;
    iface = record {
      input = record { position = f.iface.input.position; inside = f.iface.input.inside };
      output = f.iface.output;
      data_copy = f.iface.data_copy;
    };
  }
  Step-ServerFits (Step.sends s n) f = record {
    data_in_use = f.data_in_use;
    iface = record {
      input = f.iface.input;
      output = (write_bytes-pending s.iface.text_queue_out f.iface.output n).2;
      data_copy = f.iface.data_copy;
    };
  }
  Step-ServerFits (Step.transacts s e d) f = record {
    data_in_use = f.data_in_use;
    iface = transact-IsSound x s.iface f.iface;
  }
  Step-ServerFits (Step.reconnects s g h e) f =
      init_connection-ServerFits (close_connection x s) g h f.iface.data_copy

  pub empty-DataFits : DataFits x (data_alloc x)
  unfolding data_alloc
  empty-DataFits = record { capacity = omega arith; chains = tt }
