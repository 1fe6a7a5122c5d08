-- ===== src/Packet/Decide/Refinement.antt =====
-- The loop of decide against its comment: every chain is asked, one that drops decides, and else the
-- delays add up.
use mathlib.Core.Path.{subst}
use ip_noise.Common.{
  ◌≡◌, refl, sym, ◌∙◌, inl, inr, Bool, true, false, Option, none, some, Bool-cases, List, [], ◌∷◌,
  arith, if◌then◌else◌,
}
use ip_noise.Common.Fault.{◌>>=◌, >>=-eq-some, >>=-cong, >>=_assoc}
use ip_noise.Model.{Externals, Chain, Env}
use ip_noise.Packet.Decide.{unprocessed, chain_decide, decide_loop, decide}
use ip_noise.Packet.Info.{PacketInfo}
use ip_noise.Packet.Verdict.{Action, accept, Verdict, accumulate}
use ip_noise.Packet.Verdict.Laws.{
  any_processed, combined, sums_fit, accumulate_all, accumulate_all-eq, IsFlagged, AllFlagged,
  foldl-combined, foldl-processed, combined-one, combined_from-accept,
}

module _ (x : Externals) where
  -- Every chain is asked once, in order.
  unfoldable pub chain_verdicts :
      List (Chain x) → PacketInfo → Env → Option (List Verdict × List (Chain x) × Env)
  chain_verdicts [] p e = some ([], [], e)
  chain_verdicts (c ∷ cs) p e = do
    (w, c', e') ← chain_decide x c p false e
    (vs, cs', e'') ← chain_verdicts cs p e'
    some (w ∷ vs, c' ∷ cs', e'')

  -- A fault comes to the same wherever it stands.
  none_after :
      {A B : Type 0} (m : Option A) (f : A → Option B) → ((a : A) → f a ≡ none) → (m >>= f) ≡ none
  none_after none f h = refl
  none_after (some a) f h = h a

  abbrev Looped : Type 0
  Looped = Verdict × List (Chain x) × Env

  -- The results of the loop, with a chain in front.
  abbrev behind : Chain x → Looped → Option Looped
  behind c (v, cs, e) = some (v, c ∷ cs, e)

  -- The loop by its verdicts: `sum` is what they make.
  abbrev by_verdicts :
      List (Chain x) → PacketInfo → Env → (List Verdict → Option Verdict) → Option Looped
  by_verdicts cs p e sum =
      chain_verdicts cs p e >>= λ (vs, cs', e'). sum vs >>= λ v. some (v, cs', e')

  -- The rest of the loop, from what the verdict of a chain and the one so far make together.
  loop_from :
      (cs : List (Chain x)) (p : PacketInfo) (c : Chain x) (e : Env) (r : Option Verdict)
      → ((v : Verdict) → decide_loop x cs p v e ≡ by_verdicts cs p e (accumulate_all v))
      → (r >>= λ v. decide_loop x cs p v e >>= behind c) ≡ (
          chain_verdicts cs p e >>= λ (vs, cs', e').
          (r >>= λ v. accumulate_all v vs) >>= λ v. behind c (v, cs', e'))
  loop_from cs p c e none h = sym (none_after (chain_verdicts cs p e) _ (λ a. refl))
  loop_from cs p c e (some v) h = simp (h v, >>=_assoc)

  decide_loop-all :
      (cs : List (Chain x)) (p : PacketInfo) (v : Verdict) (e : Env)
      → decide_loop x cs p v e ≡ by_verdicts cs p e (accumulate_all v)
  unfolding decide_loop chain_verdicts accumulate_all
  decide_loop-all [] p v e = refl
  decide_loop-all (c ∷ cs) p v e =
      >>=-cong (chain_decide x c p false e) (λ (w, c', e') h.
        loop_from cs p c' e' (accumulate v w) (λ u. decide_loop-all cs p u e')
        ∙ sym (>>=_assoc (chain_verdicts cs p e') _ _))
      ∙ sym (>>=_assoc (chain_decide x c p false e) _ _)

  chain_decide-IsFlagged :
      (c : Chain x) (p : PacketInfo) (b : Bool) (e : Env) {w : Verdict} {c' : Chain x} {e' : Env}
      → chain_decide x c p b e ≡ some (w, c', e')
      → IsFlagged w
  unfolding chain_decide
  chain_decide-IsFlagged c p b e h = ground arith

  chain_verdicts-AllFlagged :
      (cs : List (Chain x)) (p : PacketInfo) (e : Env) {vs : List Verdict} {cs' : List (Chain x)}
      {e' : Env}
      → chain_verdicts cs p e ≡ some (vs, cs', e')
      → AllFlagged vs
  unfolding chain_verdicts
  chain_verdicts-AllFlagged [] p e h = ground arith
  chain_verdicts-AllFlagged (c ∷ cs) p e {vs} h =
      let ((w, c', e1), hw, h1) = >>=-eq-some (chain_decide x c p false e) _ h in
      let ((ws, cs', e2), hv, h2) = >>=-eq-some (chain_verdicts cs p e1) _ h1 in
      let same : (w ∷ ws) ≡ vs = cc in
      subst AllFlagged same
        (chain_decide-IsFlagged c p false e hw, chain_verdicts-AllFlagged cs p e1 hv)

  -- What the default chain, asked without its filter, says alone.
  default_only :
      Chain x → List (Chain x) → PacketInfo → Env → Option (Action × List (Chain x) × Env)
  default_only c cs p e = do
    (w, c', e') ← chain_decide x c p true e
    some (combined (w ∷ []), c' ∷ cs, e')

  -- The rules of the comment on decide, for verdicts whose sum is an `int` all along.
  unfoldable pub decide_rules :
      List (Chain x) → PacketInfo → Env → Option (Action × List (Chain x) × Env)
  unfolding default_only
  decide_rules [] p e = some (accept, [], e)
  decide_rules (c ∷ cs) p e = do
    (vs, cs', e') ← chain_verdicts cs p e
    let verdict : Option (Action × List (Chain x) × Env) =
        if any_processed vs then some (combined vs, c ∷ cs', e') else default_only c cs' p e'
    if sums_fit accept vs then verdict else none

  -- For any chains, packet, random numbers and times, decide faults exactly when asking a chain
  -- does, or when a sum of the delays, in the order of the chains and up to the first one that
  -- drops, overflows an int. Else it returns the verdict, chains and environment of the rules: all
  -- chains but the first are asked once and in order; the packet is dropped if one of them drops
  -- it, and else delayed by the sum of the delays, where a sum of 0 is an acceptance; only if none
  -- of them processed the packet the first chain decides alone, without its filter. With no chain
  -- the packet is accepted.
  pub decide-decide_rules :
      (cs : List (Chain x)) (p : PacketInfo) (e : Env) → decide x cs p e ≡ decide_rules cs p e
  unfolding decide decide_rules
  decide-decide_rules [] p e = refl
  decide-decide_rules (c ∷ cs) p e =
      rw (decide_loop-all cs p unprocessed e, >>=_assoc)
        (>>=-cong (chain_verdicts cs p e) λ (vs, cs', e') h.
          let flagged = chain_verdicts-AllFlagged cs p e h in
          let folded = accumulate_all-eq vs unprocessed in
          elim (Bool-cases (sums_fit accept vs)) [
            | inl f ↦
                rw
                  (
                    folded,
                    f,
                    foldl-processed vs unprocessed (λ _. refl) flagged,
                    foldl-combined vs unprocessed,
                    combined_from-accept vs,
                  )
                  (simp combined-one)
            | inr f ↦ rw (folded, f) refl
          ])
