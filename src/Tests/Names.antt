-- ===== src/Tests/Names.antt =====
-- A tree that meets what the dictionaries of names need, a list, and a run of them.
use ip_noise.Common.{
  ℕ, zero, suc, ◌+◌, ◌*◌, ◌≤◌, ◌<◌, ◌≡◌, refl, sym, ap, ◌∙◌, inl, inr, Bool, true, false, ◌&&◌,
  Option, none, some, List, [], ◌∷◌, ◌++◌, arith, leb, ◌==◌, if◌then◌else◌, Bool-cases,
  Option-cases, length,
}
use ip_noise.Common.Int.{pos}
use ip_noise.Model.Alloc.{id_len, strncpy}
use ip_noise.Names.{first_alike, DictElem, or_elem, Trees, dict_alloc, dict_get}
use ip_noise.Names.Laws.{ReadsNames, Call, index_or_minus_one, replayed, calls, calls-gives}

-- The number of a name, where upper and lower case count as the same.
lower : ℕ → ℕ
lower c = if leb 65 c && leb c 90 then c + 32 else c

digits : List ℕ → ℕ
unfolding lower
digits [] = 0
digits (c ∷ cs) = lower c + 256 * digits cs

code_of : List ℕ → ℕ
unfolding digits strncpy
code_of name = digits (strncpy id_len name)

abbrev folded : List ℕ → List ℕ → Bool
folded a b = code_of a == code_of b

strncpy_twice : (n : ℕ) (name : List ℕ) → strncpy n (strncpy n name) ≡ strncpy n name
unfolding strncpy
strncpy_twice zero name = refl
strncpy_twice (suc n) [] = refl
strncpy_twice (suc n) (c ∷ cs) = elim (Bool-cases (c == 0)) [
  | inl e ↦ rw e refl
  | inr e ↦ rw (e, e) (ap (λ r. c ∷ r) (strncpy_twice n cs))
]

code_of-strncpy : (name : List ℕ) → code_of (strncpy id_len name) ≡ code_of name
unfolding code_of
code_of-strncpy name = ap digits (strncpy_twice id_len name)

folded-ReadsNames : ReadsNames folded
folded-ReadsNames = record {
  left = λ a b. ap (λ n. n == code_of b) (code_of-strncpy a);
  right = λ a b. ap (λ n. code_of a == n) (code_of-strncpy b);
}

abbrev code : DictElem → ℕ
code e = code_of e.name

abbrev like : DictElem → DictElem → Bool
like e k = code e == code k

abbrev found : List DictElem → DictElem → Option DictElem
found = first_alike like

searched : List DictElem → DictElem → List DictElem
searched l e = elim (found l e) [ none ↦ l ++ e ∷ [] | some f ↦ l ]

deleted : List DictElem → DictElem → List DictElem
deleted [] e = []
deleted (f ∷ l) e = let rest = deleted l e in if like e f then rest else f ∷ rest

found-append :
    (l : List DictElem) (e k : DictElem)
    → found (l ++ e ∷ []) k ≡ (if like e k then or_elem (found l k) e else found l k)
found-append [] e k = ground arith
found-append (f ∷ l) e k = elim (Bool-cases (like f k)) [
  | inl t ↦ rw t (elim (Bool-cases (like e k)) [ inl u ↦ rw u refl | inr u ↦ rw u refl ])
  | inr t ↦ rw t (found-append l e k)
]

-- What is like something that is there is there.
found_like :
    (l : List DictElem) (e k : DictElem) {f : DictElem}
    → found l e ≡ some f
    → like e k ≡ true
    → or_elem (found l k) e ≡ found l k
found_like [] e k h t = cc
found_like (g ∷ l) e k h t = elim (Bool-cases (like g e)) [
  | inl u ↦ let v : like g k ≡ true = ground arith in rw v refl
  | inr u ↦ let v : like g k ≡ false = ground arith in rw v (found_like l e k (rw u at h) t)
]

found-searched :
    (l : List DictElem) (e k : DictElem)
    → found (searched l e) k ≡ (if like e k then or_elem (found l k) e else found l k)
unfolding searched
found-searched l e k = elim (Option-cases (found l e)) [
  | inl h ↦ rw (h, searched) (found-append l e k)
  | inr (f, h) ↦
      rw (h, searched)
        (elim (Bool-cases (like e k)) [
          | inl t ↦ rw t (sym (found_like l e k h t))
          | inr t ↦ rw t refl
        ])
]

found-deleted :
    (l : List DictElem) (e k : DictElem)
    → found (deleted l e) k ≡ (if like e k then none else found l k)
unfolding deleted
found-deleted [] e k = ground arith
found-deleted (f ∷ l) e k = elim (Bool-cases (like e f)) [
  | inl t ↦ rw t (elim (Bool-cases (like e k)) [
    | inl u ↦ found-deleted l e k ∙ rw u refl
    | inr u ↦ let v : like f k ≡ false = ground arith in found-deleted l e k ∙ rw (u, v) refl
  ])
  | inr t ↦ rw t (elim (Bool-cases (like f k)) [
    | inl u ↦ let v : like e k ≡ false = ground arith in rw (u, v) refl
    | inr u ↦ rw u (found-deleted l e k)
  ])
]

length-deleted : (l : List DictElem) (e : DictElem) → length (deleted l e) ≤ length l
unfolding deleted
length-deleted [] e = omega arith
length-deleted (f ∷ l) e = ground (arith, length-deleted l e)

length-deleted-lt :
    (l : List DictElem) (e f : DictElem) → found l e ≡ some f → length (deleted l e) < length l
unfolding deleted
length-deleted-lt [] e f h = cc
length-deleted-lt (g ∷ l) e f h = elim (Bool-cases (like e g)) [
  | inl t ↦ rw t (omega (arith, length-deleted l e))
  | inr t ↦
      let u : like g e ≡ false = ground arith in
      let shorter = length-deleted-lt l e f (rw u at h) in rw t (omega (arith, shorter))
]

first_of : List DictElem → Option DictElem
first_of [] = none
first_of (e ∷ l) = some e

first_of-none : (l : List DictElem) (k : DictElem) → first_of l ≡ none → found l k ≡ none
unfolding first_of
first_of-none [] k h = refl
first_of-none (e ∷ l) k h = cc

first_of-found : (l : List DictElem) (e : DictElem) → first_of l ≡ some e → found l e ≡ some e
unfolding first_of
first_of-found [] e h = cc
first_of-found (f ∷ l) e h =
    let same : f ≡ e = cc in let t : like e e ≡ true = ground arith in rw (same, t) refl

abbrev lists : Trees folded
lists = record {
  Tree = List DictElem;
  init = [];
  find = found;
  search = searched;
  delete = deleted;
  minimum = first_of;
  walk = λ l. l;
  size = length;
  find-init = λ k. refl;
  find-search = λ t e k. found-searched t e k;
  find-delete = found-deleted;
  minimum-none = first_of-none;
  minimum-find = first_of-found;
  size-delete = length-deleted-lt;
  walk-find = λ t k. refl;
}

-- "AB" is added twice, in two cases, and copied.
abbrev some_calls : List Call
some_calls = Call.add (65 ∷ 66 ∷ []) (pos 3) ∷ Call.add (97 ∷ 98 ∷ []) (pos 4) ∷ Call.duplicate ∷ []

calls-gives_example :
    (r : List DictElem) × (calls lists some_calls (dict_alloc lists) ≡ some r)
    × ((name : List ℕ)
        → dict_get lists r name ≡ index_or_minus_one (replayed folded some_calls (λ _. none) name))
calls-gives_example = calls-gives lists folded-ReadsNames some_calls
