-- ===== src/Rwlock/Tally.antt =====
-- How many threads are in each phase.
use ip_noise.Common.{
  ℕ, zero, suc, ◌+◌, ◌<◌, ◌≡◌, refl, sym, ap, ◌∙◌, ◌≢◌, ◌⊎◌, inl, inr, some, List, [], ◌∷◌, map,
  arith, get_elem?, set,
}
use ip_noise.Rwlock.{Thread, wake_writer, Signals, all_idle}

pub record Tally : Type 0 where
  pub readers : ℕ
  pub writers : ℕ
  pub r_asleep : ℕ
  pub r_awake : ℕ
  pub w_asleep : ℕ
  pub w_awake : ℕ

abbrev pub plus : Thread → Tally → Tally
plus Thread.idle t = t
plus Thread.read_asleep t = record t { r_asleep = suc t.r_asleep }
plus Thread.read_awake t = record t { r_awake = suc t.r_awake }
plus Thread.reading t = record t { readers = suc t.readers }
plus Thread.write_asleep t = record t { w_asleep = suc t.w_asleep }
plus Thread.write_awake t = record t { w_awake = suc t.w_awake }
plus Thread.writing t = record t { writers = suc t.writers }

pub tally : List Thread → Tally
tally [] = record { readers = 0; writers = 0; r_asleep = 0; r_awake = 0; w_asleep = 0; w_awake = 0 }
tally (p ∷ l) = plus p (tally l)

pub plus_comm : (p q : Thread) (t : Tally) → plus p (plus q t) ≡ plus q (plus p t)
plus_comm p q t = ground arith

-- A thread that changes its phase.
pub tally-set :
    (l : List Thread) (i : ℕ) {p : Thread} (q : Thread)
    → get_elem? l i ≡ some p
    → plus p (tally (set l i q)) ≡ plus q (tally l)
unfolding tally
tally-set [] i q h = ground arith
tally-set (x ∷ l) zero {p} q h = let same : x ≡ p = cc in rw same (plus_comm p q (tally l))
tally-set (x ∷ l) (suc i) {p} q h =
    plus_comm p x (tally (set l i q)) ∙ ap (plus x) (tally-set l i q h) ∙ plus_comm x q (tally l)

-- The broadcast wakes every writer that waits.
abbrev pub broadcast : Tally → Tally
broadcast t = record t { w_asleep = 0; w_awake = t.w_awake + t.w_asleep }

broadcast-plus :
    (p : Thread) (t : Tally) → broadcast (plus p t) ≡ plus (wake_writer p) (broadcast t)
broadcast-plus p t = ground arith

pub tally-broadcast : (l : List Thread) → tally (map wake_writer l) ≡ broadcast (tally l)
unfolding tally
tally-broadcast [] = refl
tally-broadcast (p ∷ l) =
    ap (plus (wake_writer p)) (tally-broadcast l) ∙ sym (broadcast-plus p (tally l))

asleep-plus :
    (p : Thread) (t : Tally) → p ≢ Thread.read_asleep → t.r_asleep ≡ 0 → (plus p t).r_asleep ≡ 0
asleep-plus Thread.read_asleep t h e = absurd (h refl)
asleep-plus Thread.idle t h e = e
asleep-plus Thread.read_awake t h e = e
asleep-plus Thread.reading t h e = e
asleep-plus Thread.write_asleep t h e = e
asleep-plus Thread.write_awake t h e = e
asleep-plus Thread.writing t h e = e

-- A thread is found in each phase that is counted.
pub tally-nobody :
    (l : List Thread) → ((j : ℕ) → get_elem? l j ≢ some Thread.read_asleep) → (tally l).r_asleep ≡ 0
unfolding tally
tally-nobody [] h = refl
tally-nobody (p ∷ l) h =
    let rest : (tally l).r_asleep ≡ 0 = tally-nobody l (λ j. h (suc j)) in
    asleep-plus p (tally l) (λ e. h 0 (ap some e)) rest

-- The tally of the threads behind a signal.
pub Signals-tally :
    {l m : List Thread}
    → Signals l m
    → (((tally l).r_asleep ≡ 0) × (tally m ≡ tally l))
      ⊎ (plus Thread.read_asleep (tally m) ≡ plus Thread.read_awake (tally l))
Signals-tally (Signals.nobody h) = inl (tally-nobody _ h, refl)
Signals-tally (Signals.one j h) = inr (tally-set _ j Thread.read_awake h)

-- Two equal tallies have equal entries.
pub entries :
    {s t : Tally}
    → s ≡ t
    → (s.readers ≡ t.readers)
      × (s.writers ≡ t.writers)
      × (s.r_asleep ≡ t.r_asleep)
      × (s.r_awake ≡ t.r_awake)
      × (s.w_asleep ≡ t.w_asleep)
      × (s.w_awake ≡ t.w_awake)
entries h = (
  ap (λ t. t.readers) h,
  ap (λ t. t.writers) h,
  ap (λ t. t.r_asleep) h,
  ap (λ t. t.r_awake) h,
  ap (λ t. t.w_asleep) h,
  ap (λ t. t.w_awake) h,
)

pub tally-all_idle :
    (n : ℕ)
    → tally (all_idle n)
      ≡ record { readers = 0; writers = 0; r_asleep = 0; r_awake = 0; w_asleep = 0; w_awake = 0 }
unfolding tally
tally-all_idle zero = refl
tally-all_idle (suc n) = tally-all_idle n

-- What is counted is found.
pub find_writer :
    (l : List Thread) → 0 < (tally l).w_awake → (i : ℕ) × (get_elem? l i ≡ some Thread.write_awake)
unfolding tally
find_writer [] p = absurd (omega arith)
find_writer (Thread.write_awake ∷ l) p = (0, refl)
find_writer (Thread.idle ∷ l) p = let (i, e) = find_writer l p in (suc i, e)
find_writer (Thread.read_asleep ∷ l) p = let (i, e) = find_writer l p in (suc i, e)
find_writer (Thread.read_awake ∷ l) p = let (i, e) = find_writer l p in (suc i, e)
find_writer (Thread.reading ∷ l) p = let (i, e) = find_writer l p in (suc i, e)
find_writer (Thread.write_asleep ∷ l) p = let (i, e) = find_writer l p in (suc i, e)
find_writer (Thread.writing ∷ l) p = let (i, e) = find_writer l p in (suc i, e)

pub find_reader :
    (l : List Thread) → 0 < (tally l).r_awake → (i : ℕ) × (get_elem? l i ≡ some Thread.read_awake)
unfolding tally
find_reader [] p = absurd (omega arith)
find_reader (Thread.read_awake ∷ l) p = (0, refl)
find_reader (Thread.idle ∷ l) p = let (i, e) = find_reader l p in (suc i, e)
find_reader (Thread.read_asleep ∷ l) p = let (i, e) = find_reader l p in (suc i, e)
find_reader (Thread.write_awake ∷ l) p = let (i, e) = find_reader l p in (suc i, e)
find_reader (Thread.reading ∷ l) p = let (i, e) = find_reader l p in (suc i, e)
find_reader (Thread.write_asleep ∷ l) p = let (i, e) = find_reader l p in (suc i, e)
find_reader (Thread.writing ∷ l) p = let (i, e) = find_reader l p in (suc i, e)
