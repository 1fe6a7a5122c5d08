-- ===== src/Mask/Laws.antt =====
-- What a change of a mask does to each bit of it.
use Prim.Native.Nat.{bit_and}
use native.Mathlib.Decide.{dec_lt, ℕ_discrete}
use ip_noise.Common.{
  ℕ, zero, suc, ◌/◌, ◌%◌, ◌^◌, ◌≤◌, ◌<◌, ◌≡◌, refl, sym, ap, ◌∙◌, ◌≢◌, Bool, true, false, not, ◌&&◌,
  none, some, List, [], ◌∷◌, arith, ltb, ◌==◌, if◌then◌else◌, holds_below, holds_below_at, le→leb,
  lt→leb, length, get_elem?, set, length-set, get_elem?-set_self, get_elem?-set_ne, get_or,
  replicate, length-replicate, get_elem?-defined, get_elem?-replicate, get_or-get_elem?,
  get_elem?-outside,
}
use ip_noise.Mask.{test_mask, change_bit, change_mask}

-- Every entry is a byte.
abbrev pub AllBytes : List ℕ → Type 0
AllBytes [] = Unit {0}
AllBytes (b ∷ bs) = (b < 256) × AllBytes bs

-- `1 << bit` is set in the byte.
abbrev pub bit_set : ℕ → ℕ → Bool
bit_set byte bit = not (bit_and byte (2 ^ bit) == 0)

abbrev same_bool : Bool → Bool → Bool
same_bool true b = b
same_bool false b = not b

same_bool-eq : (a b : Bool) → same_bool a b ≡ true → a ≡ b
same_bool-eq a b h = ground arith

bit_law : ℕ → ℕ → ℕ → Bool
unfolding change_bit
bit_law i j byte =
    same_bool (bit_set (change_bit byte i true) j) (if i == j then true else bit_set byte j)
    && same_bool (bit_set (change_bit byte i false) j) (if i == j then false else bit_set byte j)
    && ltb (change_bit byte i true) 256
    && ltb (change_bit byte i false) 256

bit_table : holds_below (λ i. holds_below (λ j. holds_below (bit_law i j) 256) 8) 8 ≡ true
unfolding holds_below bit_law
bit_table = refl

bit_law-holds : (i j byte : ℕ) → i < 8 → j < 8 → byte < 256 → bit_law i j byte ≡ true
bit_law-holds i j byte hi hj hb =
    let row =
      holds_below_at (λ k. holds_below (λ l. holds_below (bit_law k l) 256) 8) 8 hi bit_table in
    let cell = holds_below_at (λ l. holds_below (bit_law i l) 256) 8 hj row in
    holds_below_at (bit_law i j) 256 hb cell

-- Setting or clearing a bit of a byte changes that bit and no other, and gives a byte.
bit_set-change_bit :
    (i j byte : ℕ) (enable : Bool)
    → i < 8
    → j < 8
    → byte < 256
    → (bit_set (change_bit byte i enable) j ≡ (if i == j then enable else bit_set byte j))
      × (change_bit byte i enable < 256)
unfolding bit_law
bit_set-change_bit i j byte true hi hj hb = ground (arith, bit_law-holds i j byte hi hj hb)
bit_set-change_bit i j byte false hi hj hb = ground (arith, bit_law-holds i j byte hi hj hb)

AllBytes-get : (mask : List ℕ) (i : ℕ) {b : ℕ} → AllBytes mask → get_elem? mask i ≡ some b → b < 256
AllBytes-get [] i h e = cc
AllBytes-get (x ∷ xs) zero h e = ground arith
AllBytes-get (x ∷ xs) (suc i) h e = AllBytes-get xs i h.1 e

AllBytes-set : (mask : List ℕ) (i v : ℕ) → AllBytes mask → v < 256 → AllBytes (set mask i v)
AllBytes-set [] i v h l = tt
AllBytes-set (x ∷ xs) zero v h l = (l, h.1)
AllBytes-set (x ∷ xs) (suc i) v h l = (h.0, AllBytes-set xs i v h.1 l)

pub AllBytes-replicate : (n v : ℕ) → v < 256 → AllBytes (replicate n v)
AllBytes-replicate zero v l = tt
AllBytes-replicate (suc n) v l = (l, AllBytes-replicate n v l)

-- The bit that a byte of a mask holds for an offset.
test_mask-at :
    (mask : List ℕ) (o : ℕ) {b : ℕ}
    → get_elem? mask (o / 8) ≡ some b
    → test_mask mask o ≡ some (bit_set b (o % 8))
unfolding test_mask
test_mask-at mask o e = rw e

test_mask-cong :
    (a b : List ℕ) (o : ℕ)
    → get_elem? a (o / 8) ≡ get_elem? b (o / 8)
    → test_mask a o ≡ test_mask b o
unfolding test_mask
test_mask-cong a b o e = rw e

full_bits : holds_below (λ j. bit_set 255 j && not (bit_set 0 j)) 8 ≡ true
unfolding holds_below
full_bits = refl

full_bit : (j : ℕ) (enable : Bool) → j < 8 → bit_set (if enable then 255 else 0) j ≡ enable
full_bit j true h =
    ground (arith, holds_below_at (λ k. bit_set 255 k && not (bit_set 0 k)) 8 h full_bits)
full_bit j false h =
    ground (arith, holds_below_at (λ k. bit_set 255 k && not (bit_set 0 k)) 8 h full_bits)

-- The byte that a change of one bit writes.
module _ (mask : List ℕ) (index : ℕ) (enable : Bool) (bytes : AllBytes mask)
    (inside : index / 8 < length mask) where
  changed_byte : ℕ
  changed_byte = change_bit (get_or mask (index / 8) 0) (index % 8) enable

  byte_at : get_elem? mask (index / 8) ≡ some (get_or mask (index / 8) 0)
  byte_at =
      let (v, at) = get_elem?-defined mask (index / 8) inside in
      at ∙ ap some (sym (get_or-get_elem? mask (index / 8) 0 at))

  change_mask-set : change_mask mask index enable ≡ set mask (index / 8) changed_byte
  unfolding change_mask changed_byte
  change_mask-set = rw (lt→leb (length mask) (index / 8) inside)

  changed_bit :
      (j : ℕ)
      → j < 8
      → (bit_set changed_byte j
          ≡ (if index % 8 == j then enable else bit_set (get_or mask (index / 8) 0) j))
        × (changed_byte < 256)
  unfolding changed_byte
  changed_bit j h =
      bit_set-change_bit (index % 8) j _ enable (omega arith) h (AllBytes-get mask _ bytes byte_at)

  get-same :
      (o : ℕ)
      → index / 8 ≡ o / 8
      → get_elem? (change_mask mask index enable) (o / 8) ≡ some changed_byte
  get-same o e = rw (change_mask-set, ← e) (get_elem?-set_self mask (index / 8) changed_byte inside)

  get-other :
      (o : ℕ)
      → index / 8 ≢ o / 8
      → get_elem? (change_mask mask index enable) (o / 8) ≡ get_elem? mask (o / 8)
  get-other o n = rw change_mask-set (get_elem?-set_ne mask changed_byte n)

  -- A change at an index inside of a mask of bytes sets the bit of that index to `enable`, and
  -- leaves every other bit of the mask as it was.
  pub test_mask-change_mask :
      (o : ℕ) (old : Bool)
      → test_mask mask o ≡ some old
      → test_mask (change_mask mask index enable) o ≡ some (if index == o then enable else old)
  test_mask-change_mask o old h = elim (ℕ_discrete (index / 8) (o / 8)) [
    | yes e ↦
        let at : get_elem? mask (o / 8) ≡ some (get_or mask (index / 8) 0) = rw (← e) byte_at in
        test_mask-at _ o (get-same o e)
        ∙ ground (arith, changed_bit (o % 8) (omega arith), test_mask-at mask o at)
    | no n ↦ test_mask-cong _ _ o (get-other o n) ∙ ground arith
  ]

-- A change at an index past the mask sets every bit of it to `enable`.
pub test_mask-change_mask_all :
    (mask : List ℕ) (index o : ℕ) (enable : Bool)
    → length mask ≤ index / 8
    → o / 8 < length mask
    → test_mask (change_mask mask index enable) o ≡ some enable
unfolding change_mask
test_mask-change_mask_all mask index o enable past inside =
    rw (le→leb (length mask) (index / 8) past) (
      test_mask-at _ o
        (get_elem?-replicate (length mask) (if enable then 255 else 0) (o / 8) inside)
      ∙ ap some (full_bit (o % 8) enable (omega arith)))

-- A change keeps the length of a mask of bytes, and leaves it one of bytes.
pub change_mask-AllBytes :
    (mask : List ℕ) (index : ℕ) (enable : Bool)
    → AllBytes mask
    → AllBytes (change_mask mask index enable)
      × (length (change_mask mask index enable) ≡ length mask)
unfolding change_mask
change_mask-AllBytes mask index enable bytes = elim (dec_lt (index / 8) (length mask)) [
  | yes l ↦ rw (change_mask-set mask index enable bytes l) (
    AllBytes-set mask (index / 8) _ bytes (changed_bit mask index enable bytes l 0 (omega arith)).1,
    length-set mask (index / 8) _,
  )
  | no n ↦ rw (le→leb (length mask) (index / 8) (omega arith)) (
    AllBytes-replicate (length mask) (if enable then 255 else 0) (ground arith),
    length-replicate (length mask) _,
  )
]

pub test_mask-defined :
    (mask : List ℕ) (o : ℕ) → o / 8 < length mask → (b : Bool) × (test_mask mask o ≡ some b)
test_mask-defined mask o h =
    let (byte, at) = get_elem?-defined mask (o / 8) h in
    (bit_set byte (o % 8), test_mask-at mask o at)

pub test_mask-outside : (mask : List ℕ) (o : ℕ) → length mask ≤ o / 8 → test_mask mask o ≡ none
unfolding test_mask
test_mask-outside mask o h = rw (get_elem?-outside mask (o / 8) h)

-- The bit of the offset, counted through the bytes of the mask from the lowest one on, is 1.
abbrev pub HasBit : List ℕ → ℕ → Type 0
HasBit mask o = (byte : ℕ) × (get_elem? mask (o / 8) ≡ some byte) × (byte / 2 ^ (o % 8) % 2 ≡ 1)

abbrev digit_law : ℕ → ℕ → Bool
digit_law j byte = same_bool (bit_set byte j) (byte / 2 ^ j % 2 == 1)

digit_table : holds_below (λ j. holds_below (digit_law j) 256) 8 ≡ true
unfolding holds_below
digit_table = refl

digit_law-holds : (j byte : ℕ) → j < 8 → byte < 256 → digit_law j byte ≡ true
digit_law-holds j byte hj hb =
    holds_below_at (digit_law j) 256 hb
      (holds_below_at (λ k. holds_below (digit_law k) 256) 8 hj digit_table)

-- test_mask tells whether the bit of the offset is 1.
pub test_mask-HasBit :
    (mask : List ℕ) (o : ℕ)
    → AllBytes mask
    → o / 8 < length mask
    → (b : Bool) × (test_mask mask o ≡ some b)
      × (b ≡ true → HasBit mask o)
      × (HasBit mask o → b ≡ true)
test_mask-HasBit mask o v h =
    let (byte, at) = get_elem?-defined mask (o / 8) h in
    let small = AllBytes-get mask (o / 8) v at in
    let same : bit_set byte (o % 8) ≡ (byte / 2 ^ (o % 8) % 2 == 1) =
      same_bool-eq _ _ (digit_law-holds (o % 8) byte (omega arith) small) in
    (
      bit_set byte (o % 8),
      test_mask-at mask o at,
      λ e. (byte, at, ground (arith, sym same ∙ e)),
      λ (c, e, d). let q : byte ≡ c = cc in same ∙ (rw (q, d) refl),
    )
