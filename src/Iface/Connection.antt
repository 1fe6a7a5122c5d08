-- ===== src/Iface/Connection.antt =====
-- The life of a connection: ip_noise_arbitrator_iface_init_connection and close_connection of
-- C/arbitrator/iface.c. The data that the other threads use is `data`; the flag is `reinit_switcher`.
use ip_noise.TextQueue.In
use ip_noise.TextQueue.Out
use ip_noise.Common.{ℕ, Bool, true}
use ip_noise.Iface.Monad.{Iface}
use ip_noise.Model.{Externals, Data}
use ip_noise.Model.Alloc.{data_duplicate}
use ip_noise.TextQueue.Out.{alloc}

-- What the interface shares with the switcher and the packet logic, and its own state.
pub record Server (x : Externals) : Type 0 where
  pub data_in_use : Data x
  pub reinit_switcher : Bool
  pub iface : Iface x

module _ (x : Externals) where
  -- ip_noise_arbitrator_iface_init_connection, for the contents of the two new buffers.
  unfoldable pub init_connection : (ℕ → ℕ) → (ℕ → ℕ) → Server x → Server x
  unfolding data_duplicate In.alloc Out.alloc
  init_connection garbage garbage' s = record s {
    iface = record s.iface {
      continue = true;
      text_queue_in = In.alloc garbage;
      text_queue_out = Out.alloc garbage';
      data_copy = data_duplicate x s.data_in_use;
    };
  }

  -- close_connection
  unfoldable pub close_connection : Server x → Server x
  close_connection s = record s { reinit_switcher = true; data_in_use = s.iface.data_copy }
