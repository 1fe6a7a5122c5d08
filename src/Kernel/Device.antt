-- ===== src/Kernel/Device.antt =====
-- The character device by which a client of the kernel build talks to the interface: the operations of
-- C/arbitrator/iface.c that stand in the table ip_noise_fops. ip_noise_arb_iface is the interface of a
-- Server; the timers of the chains, which closing sets anew, are those of Kernel.Switcher.
pub mod Writes
use ip_noise.TextQueue.In
use ip_noise.TextQueue.Out
use ip_noise.Common.{length as len}
use ip_noise.Common.{ℕ, ◌≡◌, Bool, true, false, List, if◌then◌else◌}
use ip_noise.Iface.Connection.{Server, init_connection, close_connection}
use ip_noise.Iface.Monad.{Iface, Outcome, done}
use ip_noise.Iface.Sound.{DataFits}
use ip_noise.Iface.Sound.Session.{ServerFits}
use ip_noise.Iface.Transact.{transact}
use ip_noise.Model.{Externals}
use ip_noise.Model.Alloc.{data_alloc}
use ip_noise.TextQueue.In.{put_bytes}
use ip_noise.TextQueue.Out.{write_bytes}

module _ (x : Externals) where
  -- ip_noise_device_open, for the contents of the new buffers: whether it is refused with -EBUSY.
  unfoldable pub device_open : (ℕ → ℕ) → (ℕ → ℕ) → Server x → Bool × Server x
  unfolding init_connection
  device_open g h s = if s.iface.continue then (true, s) else (false, init_connection x g h s)

  -- ip_noise_device_read: the bytes that the client gets, at most `length` of them.
  unfoldable pub device_read : ℕ → Server x → List ℕ × Server x
  unfolding write_bytes
  device_read length s =
      let r = write_bytes s.iface.text_queue_out length in
      (r.0, record s { iface = record s.iface { text_queue_out = r.1 } })

  -- The call of ip_noise_text_queue_in_put_bytes in ip_noise_device_write
  unfoldable pub fed : List ℕ → Iface x → Iface x
  unfolding put_bytes
  fed buffer i = record i { text_queue_in = put_bytes i.text_queue_in buffer }

  -- ip_noise_device_write. In the kernel build `exit` is an empty macro: where the program exits, this
  -- build goes on with an index that was never set, so that the outcome `exits` is a fault here. How the
  -- transaction ends, the number that is returned then, and the state.
  unfoldable pub device_write : List ℕ → Server x → Outcome (Unit {0}) × ℕ × Server x
  unfolding fed transact
  device_write buffer s =
      let r = transact x (fed buffer s.iface) in (r.0, len buffer, record s { iface = r.1 })

  -- ip_noise_device_release
  unfoldable pub device_release : Server x → Server x
  unfolding close_connection
  device_release s = close_connection x (record s { iface = record s.iface { continue = false } })

module _ {x : Externals} where
  -- What clients do: the kernel lets them read, write and release what they have opened. A write whose
  -- transaction does not return has no state behind it.
  pub data DeviceStep : Bool → Server x → Bool → Server x → Type 0 where
    opens :
        {b : Bool} (s : Server x) (g h : ℕ → ℕ)
        → (device_open x g h s).0 ≡ false
        → DeviceStep b s true (device_open x g h s).1
    reads : (s : Server x) (length : ℕ) → DeviceStep true s true (device_read x length s).1
    writes :
        (s : Server x) (buffer : List ℕ)
        → (device_write x buffer s).0 ≡ done tt
        → DeviceStep true s true (device_write x buffer s).2
    releases : (s : Server x) → DeviceStep true s false (device_release x s)

  -- The states since the interface was made; its queues are not set before the device is opened.
  pub data DeviceReached : Bool → Server x → Type 0 where
    loaded :
        (i : Iface x) (b : Bool)
        → i.continue ≡ false
        → DeviceReached false
            (record { data_in_use = data_alloc x; reinit_switcher = b; iface = i })
    then :
        {b c : Bool} {s t : Server x} → DeviceReached b s → DeviceStep b s c t → DeviceReached c t

-- The data in use is well formed, and while the device is open so are the copy and the queues.
abbrev pub DeviceFits : (x : Externals) → Bool → Server x → Type 0
DeviceFits x true s = ServerFits x s
DeviceFits x false s = DataFits x s.data_in_use
