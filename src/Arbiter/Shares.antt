-- ===== src/Arbiter/Shares.antt =====
-- How a list that is shared between the queue, the delayer and the answers moves on.
use mathlib.Core.List.Perm
use mathlib.Core.List.{Perm, perm_middle, perm_append_comm, append_assoc}
use mathlib.Core.Path.{subst}
use ip_noise.Common.{ℕ, sym, List, [], ◌∷◌, ◌++◌}

-- A message joins the queue,
pub enqueued-perm :
    (q r : List ℕ) (m : ℕ) {l : List ℕ} → Perm (q ++ r) l → Perm ((q ++ (m ∷ [])) ++ r) (m ∷ l)
enqueued-perm q r m {l} p =
    subst (λ t. Perm t (m ∷ l)) (sym (append_assoc q (m ∷ []) r))
      (Perm.trans (perm_middle q r) (Perm.cons m p))

-- or leaves it to be answered
pub answered-perm :
    (q w a : List ℕ) (m : ℕ) {l : List ℕ}
    → Perm (m ∷ (q ++ (w ++ a))) l
    → Perm (q ++ (w ++ (m ∷ a))) l
answered-perm q w a m p =
    Perm.trans (Perm.append_left q (perm_middle w a)) (Perm.trans (perm_middle q (w ++ a)) p)

-- or to wait,
pub delayed-perm :
    (q w a : List ℕ) {w' : List ℕ} (m : ℕ) {l : List ℕ}
    → Perm w' (m ∷ w)
    → Perm (m ∷ (q ++ (w ++ a))) l
    → Perm (q ++ (w' ++ a)) l
delayed-perm q w a m k p =
    Perm.trans (Perm.append_left q (Perm.append_right a k)) (Perm.trans (perm_middle q (w ++ a)) p)

-- and some that wait are answered.
pub released-perm :
    (q w a r w' : List ℕ) {a' l : List ℕ}
    → Perm (r ++ w') w
    → Perm a' (r ++ a)
    → Perm (q ++ (w ++ a)) l
    → Perm (q ++ (w' ++ a')) l
released-perm q w a r w' {a'} {l} k j p =
    let swapped : Perm ((w' ++ r) ++ a) (w ++ a) =
      Perm.append_right a (Perm.trans (perm_append_comm w' r) k) in
    let moved : Perm (w' ++ (r ++ a)) (w ++ a) =
      subst (λ t. Perm t (w ++ a)) (append_assoc w' r a) swapped in
    Perm.trans (Perm.append_left q (Perm.trans (Perm.append_left w' j) moved)) p
