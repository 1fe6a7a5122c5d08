-- ===== src/Packet/Verdict/Laws.antt =====
-- What the verdicts of several chains add up to.
use mathlib.Core.List.{foldl}
use ip_noise.Common.{
  ◌≡◌, refl, sym, ◌∙◌, inl, inr, Bool, true, false, ◌||◌, ◌&&◌, Option, none, some, List, [], ◌∷◌,
  arith, if◌then◌else◌, Bool-cases,
}
use ip_noise.Common.Fault.{◌>>=◌}
use ip_noise.Common.Int.{ℤ, pos, ◌+ℤ◌, +ℤ_assoc, +ℤ_zero, fits_int, int_or_fault}
use ip_noise.Packet.Verdict.{drop, Action, accept, delay, Verdict, accumulate, settle}

-- Whether some chain drops the packet, whether some chain processed it, and the sum of the delays.
unfoldable pub any_drop : List Verdict → Bool
any_drop [] = false
any_drop (v ∷ vs) = elim v.action [ drop ↦ true | accept ↦ any_drop vs | delay d ↦ any_drop vs ]

unfoldable pub any_processed : List Verdict → Bool
any_processed [] = false
any_processed (v ∷ vs) = v.processed || any_processed vs

unfoldable pub total_delay : List Verdict → ℤ
total_delay [] = pos 0
total_delay (v ∷ vs) = elim v.action [
  | delay d ↦ d +ℤ total_delay vs
  | accept ↦ total_delay vs
  | drop ↦ total_delay vs
]

-- The rules of the comment on decide: one chain that drops decides; else the delays add up.
unfoldable pub combined : List Verdict → Action
unfolding any_drop total_delay
combined vs = if any_drop vs then drop else settle (delay (total_delay vs))

-- A verdict that drops or delays is marked as processed.
abbrev pub IsFlagged : Verdict → Type 0
IsFlagged v = v.processed ≡ false → v.action ≡ accept

abbrev pub AllFlagged : List Verdict → Type 0
AllFlagged [] = Unit {0}
AllFlagged (v ∷ vs) = IsFlagged v × AllFlagged vs

-- No sum of delays, in the order of the chains and up to the first one that drops, overflows an `int`;
-- `a` is the action so far.
unfoldable pub sums_fit : Action → List Verdict → Bool
sums_fit a [] = true
sums_fit drop (v ∷ vs) = true
sums_fit accept (v ∷ vs) =
    let rest : Bool = sums_fit accept vs in
    elim v.action [ accept ↦ rest | drop ↦ true | delay d ↦ sums_fit (delay d) vs ]
sums_fit (delay g) (v ∷ vs) =
    let rest : Bool = sums_fit (delay g) vs in
    elim v.action [
      | accept ↦ rest
      | drop ↦ true
      | delay d ↦ fits_int (g +ℤ d) && sums_fit (delay (g +ℤ d)) vs
    ]

-- What the loop makes of two verdicts, with a sum that is not bounded.
merged_delay : Verdict → ℤ → Verdict
merged_delay global d = elim global.action [
  | drop ↦ global
  | delay g ↦ record global { action = delay (g +ℤ d) }
  | accept ↦ record { action = delay d; processed = true }
]

unfoldable pub merged : Verdict → Verdict → Verdict
unfolding merged_delay
merged global chain = elim chain.action [
  | drop ↦ record { action = drop; processed = true }
  | delay d ↦ merged_delay global d
  | accept ↦ if chain.processed then record global { processed = true } else global
]

-- The loop on the verdicts of the chains.
unfoldable pub accumulate_all : Verdict → List Verdict → Option Verdict
unfolding accumulate
accumulate_all v [] = some v
accumulate_all v (w ∷ vs) = accumulate v w >>= λ u. accumulate_all u vs

sums_fit-drop : (vs : List Verdict) → sums_fit drop vs ≡ true
unfolding sums_fit
sums_fit-drop [] = refl
sums_fit-drop (v ∷ vs) = refl

-- The sum of the two does not overflow, if there is one.
unfoldable fits_both : Action → Action → Bool
fits_both (delay g) (delay d) = fits_int (g +ℤ d)
fits_both _ _ = true

accumulate-step :
    (a b : Action) (p q : Bool)
    → accumulate (record { action = a; processed = p }) (record { action = b; processed = q }) ≡ (
        if fits_both a b
        then some
            (merged (record { action = a; processed = p }) (record { action = b; processed = q }))
        else none)
unfolding accumulate merged fits_both int_or_fault
accumulate-step (delay g) (delay d) p q = elim (Bool-cases (fits_int (g +ℤ d))) [
  | inl e ↦ rw (e) refl
  | inr e ↦ rw (e) refl
]
accumulate-step (delay g) accept p q = refl
accumulate-step (delay g) drop p q = refl
accumulate-step accept (delay d) p q = refl
accumulate-step accept accept p q = refl
accumulate-step accept drop p q = refl
accumulate-step drop (delay d) p q = refl
accumulate-step drop accept p q = refl
accumulate-step drop drop p q = refl

sums_fit-step :
    (a b : Action) (p q : Bool) (vs : List Verdict)
    → sums_fit a (record { action = b; processed = q } ∷ vs) ≡ (
        fits_both a b
        && sums_fit
            (merged
              (record { action = a; processed = p })
              (record { action = b; processed = q })).action
            vs)
unfolding sums_fit merged fits_both
sums_fit-step (delay g) (delay d) p q vs = refl
sums_fit-step (delay g) accept p true vs = refl
sums_fit-step (delay g) accept p false vs = refl
sums_fit-step (delay g) drop p q vs = sym (sums_fit-drop vs)
sums_fit-step accept (delay d) p q vs = refl
sums_fit-step accept accept p true vs = refl
sums_fit-step accept accept p false vs = refl
sums_fit-step accept drop p q vs = sym (sums_fit-drop vs)
sums_fit-step drop (delay d) p q vs = sym (sums_fit-drop vs)
sums_fit-step drop accept p true vs = sym (sums_fit-drop vs)
sums_fit-step drop accept p false vs = sym (sums_fit-drop vs)
sums_fit-step drop drop p q vs = sym (sums_fit-drop vs)

-- The loop faults exactly when a sum overflows.
pub accumulate_all-eq :
    (vs : List Verdict) (v : Verdict)
    → accumulate_all v vs ≡ (if sums_fit v.action vs then some (foldl merged v vs) else none)
unfolding accumulate_all sums_fit
accumulate_all-eq [] v = refl
accumulate_all-eq (w ∷ vs) v =
    let one = accumulate-step v.action w.action v.processed w.processed in
    let rest = accumulate_all-eq vs (merged v w) in
    let fit = sums_fit-step v.action w.action v.processed w.processed vs in
    elim (Bool-cases (fits_both v.action w.action)) [
      | inl e ↦ rw (one, fit, e) rest
      | inr e ↦ rw (one, fit, e) refl
    ]

-- `combined`, with the action so far in front.
pub combined_from : Action → List Verdict → Action
combined_from a vs = combined (record { action = a; processed = true } ∷ vs)

pub combined_from-nil : (a : Action) → settle a ≡ combined_from a []
unfolding combined combined_from settle
combined_from-nil accept = refl
combined_from-nil drop = refl
combined_from-nil (delay d) = rw (+ℤ_zero d)

combined_from-step :
    (a b : Action) (p q : Bool) (vs : List Verdict)
    → combined_from
        (merged
          (record { action = a; processed = p })
          (record { action = b; processed = q })).action
        vs
      ≡ combined_from a (record { action = b; processed = q } ∷ vs)
unfolding merged combined combined_from
combined_from-step (delay g) (delay d) p q vs = ground (arith, +ℤ_assoc g d (total_delay vs))
combined_from-step a b p q vs = ground arith

combined_from-merged :
    (v w : Verdict) (vs : List Verdict)
    → combined_from (merged v w).action vs ≡ combined_from v.action (w ∷ vs)
combined_from-merged v w vs = combined_from-step v.action w.action v.processed w.processed vs

-- Folding the verdicts, and settling the result, follows the rules.
pub foldl-combined :
    (vs : List Verdict) (v : Verdict)
    → settle (foldl merged v vs).action ≡ combined_from v.action vs
foldl-combined [] v = combined_from-nil v.action
foldl-combined (w ∷ vs) v = foldl-combined vs (merged v w) ∙ combined_from-merged v w vs

pub foldl-processed :
    (vs : List Verdict) (v : Verdict)
    → IsFlagged v
    → AllFlagged vs
    → (foldl merged v vs).processed ≡ (v.processed || any_processed vs)
unfolding merged any_processed
foldl-processed [] v f fs = ground arith
foldl-processed (w ∷ vs) v f (g, gs) =
    ground (arith, foldl-processed vs (merged v w) (ground arith) gs)

pub combined-one : (w : Verdict) → settle w.action ≡ combined (w ∷ [])
unfolding combined combined_from
combined-one w = combined_from-nil w.action

pub combined_from-accept : (vs : List Verdict) → combined_from accept vs ≡ combined vs
unfolding combined combined_from
combined_from-accept vs = refl
