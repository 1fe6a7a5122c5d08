-- ===== src/Kernel/Mutex.antt =====
-- pthread_mutex_init, pthread_mutex_lock and pthread_mutex_unlock of C/arbitrator/k_pthread.h, on the
-- semaphores of the kernel.
use ip_noise.Common.{ℕ, suc, ◌≡◌, refl, sym, ap, ◌∙◌, Option, none, some}

-- A semaphore of the kernel: `up` adds one, `down` takes one away, and waits at 0, `none`.
pub record Semaphores : Type 1 where
  pub Semaphore : Type 0
  pub init_mutex : Semaphore
  pub up : Semaphore → Semaphore
  pub down : Semaphore → Option Semaphore
  pub count : Semaphore → ℕ
  pub count-init_mutex : count init_mutex ≡ 1
  pub count-up : (s : Semaphore) → count (up s) ≡ suc (count s)
  pub down-waits : (s : Semaphore) → count s ≡ 0 → down s ≡ none
  pub down-takes :
      (s : Semaphore) (n : ℕ)
      → count s ≡ suc n
      → (t : Semaphore) × (down s ≡ some t) × (count t ≡ n)

module _ (x : Semaphores) where
  -- pthread_mutex_init
  unfoldable pub mutex_init : x.Semaphore
  mutex_init = x.init_mutex

  -- pthread_mutex_lock: `none` is a wait.
  unfoldable pub mutex_lock : x.Semaphore → Option x.Semaphore
  mutex_lock s = some (x.up s)

  -- pthread_mutex_unlock: `none` is a wait.
  unfoldable pub mutex_unlock : x.Semaphore → Option x.Semaphore
  mutex_unlock s = x.down s

  -- What the threads that share a mutex can reach: `holders` of them are between their calls of
  -- pthread_mutex_lock and pthread_mutex_unlock.
  pub data Shared : ℕ → x.Semaphore → Type 0 where
    fresh : Shared 0 mutex_init
    locked : {n : ℕ} {s t : x.Semaphore} → Shared n s → mutex_lock s ≡ some t → Shared (suc n) t
    unlocked : {n : ℕ} {s t : x.Semaphore} → Shared (suc n) s → mutex_unlock s ≡ some t → Shared n t

  down-count : (s t : x.Semaphore) (n : ℕ) → x.count s ≡ suc n → x.down s ≡ some t → x.count t ≡ n
  down-count s t n e h =
      let (r, f, c) = x.down-takes s n e in let same : r ≡ t = cc in ap x.count (sym same) ∙ c

  Shared-count : {n : ℕ} {s : x.Semaphore} → Shared n s → x.count s ≡ suc n
  unfolding mutex_init mutex_lock mutex_unlock
  Shared-count Shared.fresh = x.count-init_mutex
  Shared-count (Shared.locked {n} {s} {t} r h) =
      let same : x.up s ≡ t = cc in ap x.count (sym same) ∙ (x.count-up s ∙ ap suc (Shared-count r))
  Shared-count (Shared.unlocked {n} {s} {t} r h) = down-count s t (suc n) (Shared-count r) h

  -- In the kernel build a mutex keeps nobody out: however many threads are between their calls of
  -- pthread_mutex_lock and pthread_mutex_unlock, one more call of pthread_mutex_lock returns at
  -- once and its thread is there too; and pthread_mutex_unlock returns at once for a thread that
  -- is there.
  pub Shared-admits :
      {n : ℕ} {s : x.Semaphore}
      → Shared n s
      → ((t : x.Semaphore) × (mutex_lock s ≡ some t) × Shared (suc n) t)
        × ((t : x.Semaphore) × (mutex_unlock s ≡ some t))
  unfolding mutex_lock mutex_unlock
  Shared-admits {n} {s} r =
      let (t, h, _) = x.down-takes s n (Shared-count r) in
      ((x.up s, refl, Shared.locked r refl), (t, h))
