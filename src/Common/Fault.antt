-- ===== src/Common/Fault.antt =====
-- Code that may fault: `none` is undefined behaviour of the C code, such as a read outside of an
-- array, a null pointer that is followed, or an indeterminate value that is used.
use ip_noise.Common.{ℕ, ◌^◌, ◌/◌, ◌<◌, ◌≡◌, refl, Option, none, some, arith, ltb, if◌then◌else◌}

infixl 5 ◌>>=◌
abbrev pub ◌>>=◌ {ℓ κ} : {A : Type ℓ} {B : Type κ} → Option A → (A → Option B) → Option B
none >>= f = none
some a >>= f = f a

-- Inversion of a step that did not fault.
pub >>=-eq-some {ℓ κ} :
    {A : Type ℓ} {B : Type κ} (m : Option A) (f : A → Option B) {b : B}
    → (m >>= f) ≡ some b
    → (a : A) × (m ≡ some a) × (f a ≡ some b)
>>=-eq-some none f h = cc
>>=-eq-some (some a) f h = (a, refl, h)

-- `v >> k` on a 32-bit word: undefined for `k` from 32 on.
unfoldable pub shr32 : ℕ → ℕ → Option ℕ
shr32 v k = if ltb k 32 then some (v / 2 ^ k) else none

pub shr32-defined : (v k : ℕ) → k < 32 → shr32 v k ≡ some (v / 2 ^ k)
unfolding shr32
shr32-defined v k h = ground arith

pub >>=-cong {ℓ κ} :
    {A : Type ℓ} {B : Type κ} (m : Option A) {f g : A → Option B}
    → ((a : A) → m ≡ some a → f a ≡ g a)
    → (m >>= f) ≡ (m >>= g)
>>=-cong none h = refl
>>=-cong (some a) h = h a refl

pub >>=_assoc {ℓ κ μ} :
    {A : Type ℓ} {B : Type κ} {C : Type μ} (m : Option A) (f : A → Option B) (g : B → Option C)
    → (m >>= f >>= g) ≡ (m >>= λ a. f a >>= g)
>>=_assoc none f g = refl
>>=_assoc (some a) f g = refl
