-- ===== src/Iface/Sound.antt =====
-- When the state of the interface of C/arbitrator/iface.c is well formed.
pub mod Keeps
pub mod Moves
pub mod Handlers
pub mod Transact
pub mod Session
use ip_noise.TextQueue.In.Laws as InLaws
use ip_noise.TextQueue.Out.Laws as OutLaws
use mathlib.Core.List.{filter}
use mathlib.Core.Path.{subst}
use ip_noise.Common.{ℕ, zero, suc, ◌≤◌, ◌≡◌, some, List, [], ◌∷◌, ◌++◌, map, length, get_elem?, set}
use ip_noise.Iface.Monad.{Iface}
use ip_noise.Iface.Read.Moves.{size}
use ip_noise.Mask.Laws.{AllBytes}
use ip_noise.Model.{Externals, State, Chain, Data}
use ip_noise.TextQueue.In.Laws.{IsValid}

-- Every entry has the property.
abbrev pub AllOf {ℓ} : {A : Type ℓ} → (A → Type 0) → List A → Type 0
AllOf P [] = Unit
AllOf P (y ∷ ys) = P y × AllOf P ys

-- A mask of `n` bytes.
pub record IsMask (n : ℕ) (mask : List ℕ) : Type 0 where
  pub size : length mask ≡ n
  pub bytes : AllBytes mask

module _ (x : Externals) where
  -- The chain's states fit the capacity, each has an entry for a move to each, and the masks have
  -- their sizes.
  pub record ChainFits (c : Chain x) : Type 0 where
    pub capacity : length c.states ≤ c.max_num_states
    pub moves : AllOf (λ (s : State x). length s.move_tos ≡ length c.states) c.states
    pub protocols : IsMask 32 c.filter.protocols
    pub tos : IsMask 8 c.filter.tos

  pub record DataFits (d : Data x) : Type 0 where
    pub capacity : length d.chains ≤ d.max_num_chains
    pub chains : AllOf ChainFits d.chains

  pub record IsSound (s : Iface x) : Type 0 where
    pub input : InLaws.IsValid s.text_queue_in
    pub output : OutLaws.IsValid s.text_queue_out
    pub data_copy : DataFits s.data_copy

module _ {ℓ} {A : Type ℓ} (P : A → Type 0) where
  pub AllOf-get : (xs : List A) (i : ℕ) {a : A} → AllOf P xs → get_elem? xs i ≡ some a → P a
  AllOf-get [] i h e = cc
  AllOf-get (y ∷ ys) zero {a} h e = let q : y ≡ a = cc in subst P q h.0
  AllOf-get (y ∷ ys) (suc i) h e = AllOf-get ys i h.1 e

  pub AllOf-set : (xs : List A) (i : ℕ) {a : A} → AllOf P xs → P a → AllOf P (set xs i a)
  AllOf-set [] i h p = tt
  AllOf-set (y ∷ ys) zero h p = (p, h.1)
  AllOf-set (y ∷ ys) (suc i) h p = (h.0, AllOf-set ys i h.1 p)

  pub AllOf-append : (xs ys : List A) → AllOf P xs → AllOf P ys → AllOf P (xs ++ ys)
  AllOf-append [] ys h k = k
  AllOf-append (y ∷ xs) ys h k = (h.0, AllOf-append xs ys h.1 k)

  pub AllOf-map :
      (Q : A → Type 0) (f : A → A) (xs : List A)
      → ((a : A) → P a → Q (f a))
      → AllOf P xs
      → AllOf Q (map f xs)
  AllOf-map Q f [] h k = tt
  AllOf-map Q f (y ∷ ys) h k = (h y k.0, AllOf-map Q f ys h k.1)
