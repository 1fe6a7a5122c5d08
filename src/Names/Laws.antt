-- ===== src/Names/Laws.antt =====
-- The dictionaries as functions from names to indexes.
use mathlib.Core.Path.{fun_ext}
use ip_noise.Common.{
  ℕ, zero, suc, ◌<◌, ◌≡◌, refl, ap, ◌∙◌, inl, inr, Bool, Option, none, some, List, [], ◌∷◌, arith,
  if◌then◌else◌, Bool-cases, Option-cases,
}
use ip_noise.Common.Fault.{◌>>=◌}
use ip_noise.Common.Int.{ℤ, negsuc}
use ip_noise.Model.Alloc.{id_len, strncpy}
use ip_noise.Names.{
  first_alike, DictElem, alike, Trees, key, dict_alloc, dict_get, dict_add, dict_remove, reset_loop,
  dict_reset, duplicate_key, duplicate_keys, dict_duplicate,
}

-- What strncasecmp with the size of a name does: it looks at no more of a name than strncpy copies.
pub record ReadsNames (same_name : List ℕ → List ℕ → Bool) : Type 0 where
  pub left : (a b : List ℕ) → same_name (strncpy id_len a) b ≡ same_name a b
  pub right : (a b : List ℕ) → same_name a (strncpy id_len b) ≡ same_name a b

-- A call that changes a dictionary, or makes one from it.
pub data Call : Type 0 where
  add : List ℕ → ℤ → Call
  remove : List ℕ → Call
  reset duplicate : Call

-- The index of a name, if it has one.
abbrev pub Indexes : Type 0
Indexes = List ℕ → Option ℤ

abbrev pub index_or_minus_one : Option ℤ → ℤ
index_or_minus_one none = negsuc 0
index_or_minus_one (some index) = index

-- `a`, or `b` if there is no `a`.
abbrev pub or_else : Option ℤ → Option ℤ → Option ℤ
or_else none b = b
or_else (some index) b = some index

-- What a call does to the indexes: a name that is there keeps its index.
abbrev pub changed : (List ℕ → List ℕ → Bool) → Call → Indexes → Indexes
changed same_name (add name index) f other =
    if same_name name other then or_else (f other) (some index) else f other
changed same_name (remove name) f other = if same_name name other then none else f other
changed same_name reset f other = none
changed same_name duplicate f other = f other

abbrev pub replayed : (List ℕ → List ℕ → Bool) → List Call → Indexes → Indexes
replayed same_name [] f = f
replayed same_name (c ∷ cs) f = replayed same_name cs (changed same_name c f)

module _ {same_name : List ℕ → List ℕ → Bool} (x : Trees same_name) where
  abbrev pub called : Call → x.Tree → Option x.Tree
  called (add name index) dict = some (dict_add x dict name index)
  called (remove name) dict = some (dict_remove x dict name)
  called reset dict = dict_reset x dict
  called duplicate dict = some (dict_duplicate x dict)

  abbrev pub calls : List Call → x.Tree → Option x.Tree
  calls [] dict = some dict
  calls (c ∷ cs) dict = called c dict >>= calls cs

  -- What the dictionary has for a name.
  abbrev pub index_of : Option DictElem → Option ℤ
  index_of none = none
  index_of (some e) = some e.index

  abbrev pub meaning : x.Tree → Indexes
  meaning dict name = index_of (x.find dict (key x name))

  dict_get-meaning :
      (dict : x.Tree) (name : List ℕ)
      → dict_get x dict name ≡ index_or_minus_one (meaning dict name)
  unfolding dict_get
  dict_get-meaning dict name = elim (Option-cases (x.find dict (key x name))) [
    | inl e ↦ rw (e, dict_get) refl
    | inr (r, e) ↦ rw (e, dict_get) refl
  ]

  module _ (reads : ReadsNames same_name) where
    alike-key :
        (e : DictElem) (name : List ℕ) → alike same_name e (key x name) ≡ same_name e.name name
    unfolding key
    alike-key e name = reads.right e.name name

    -- The first of the elements that are alike, where one stands in front.
    first_of :
        (m : Option ℤ) (elem : DictElem) (elems : List DictElem) (other : List ℕ)
        → or_else
            (if same_name elem.name other then or_else m (some elem.index) else m)
            (index_of (first_alike (alike same_name) elems (key x other)))
          ≡ or_else m (index_of (first_alike (alike same_name) (elem ∷ elems) (key x other)))
    first_of m elem elems other =
        let same = alike-key elem other in
        rw same (elim (Bool-cases (same_name elem.name other)) [
          | inl t ↦ rw t (elim (Option-cases m) [ inl e ↦ rw e refl | inr (r, e) ↦ rw e refl ])
          | inr t ↦ rw t refl
        ])

    add-meaning :
        (dict : x.Tree) (name : List ℕ) (index : ℤ) (other : List ℕ)
        → meaning (dict_add x dict name index) other
          ≡ changed same_name (Call.add name index) (meaning dict) other
    unfolding dict_add
    add-meaning dict name index other =
        let elem : DictElem = record { name = strncpy id_len name; index = index } in
        let same : alike same_name elem (key x other) ≡ same_name name other =
          alike-key elem other ∙ reads.left name other in
        let f = x.find-search dict elem (key x other) in
        rw (f, same)
          (elim (Bool-cases (same_name name other)) [
            | inl t ↦ rw t (elim (Option-cases (x.find dict (key x other))) [
              | inl e ↦ rw e refl
              | inr (r, e) ↦ rw e refl
            ])
            | inr t ↦ rw t refl
          ])

    remove-meaning :
        (dict : x.Tree) (name other : List ℕ)
        → meaning (dict_remove x dict name) other
          ≡ changed same_name (Call.remove name) (meaning dict) other
    unfolding dict_remove
    remove-meaning dict name other =
        let same : alike same_name (key x name) (key x other) ≡ same_name name other =
          alike-key (key x name) other ∙ (unfold key in reads.left name other) in
        let f = x.find-delete dict (key x name) (key x other) in
        rw (f, same)
          (elim (Bool-cases (same_name name other)) [ inl t ↦ rw t refl | inr t ↦ rw t refl ])

    -- The loop takes out one element in each round, and ends with none left.
    reset_loop-empties :
        (fuel : ℕ) (dict : x.Tree)
        → x.size dict < fuel
        → (r : x.Tree) × (reset_loop x fuel dict ≡ some r) × ((k : DictElem) → x.find r k ≡ none)
    unfolding reset_loop
    reset_loop-empties zero dict l = absurd (omega arith)
    reset_loop-empties (suc fuel) dict l = elim (Option-cases (x.minimum dict)) [
      | inl e ↦ (dict, rw (e, reset_loop) refl, λ k. x.minimum-none dict k e)
      | inr (m, e) ↦
          let fewer = x.size-delete dict m m (x.minimum-find dict m e) in
          let (r, h, none_left) =
            reset_loop-empties fuel (x.delete dict m) (omega (arith, fewer, l)) in
          (r, rw (e, reset_loop) h, none_left)
    ]

    -- The elements that are put in one after the other: the first of those that are alike counts.
    duplicate_keys-meaning :
        (new : x.Tree) (elems : List DictElem) (other : List ℕ)
        → meaning (duplicate_keys x new elems) other
          ≡ or_else
              (meaning new other)
              (index_of (first_alike (alike same_name) elems (key x other)))
    unfolding duplicate_keys
    duplicate_keys-meaning new [] other = elim (Option-cases (x.find new (key x other))) [
      | inl e ↦ rw e refl
      | inr (r, e) ↦ rw e refl
    ]
    duplicate_keys-meaning new (elem ∷ elems) other =
        let ih = duplicate_keys-meaning (duplicate_key x new elem) elems other in
        let step = add-meaning new elem.name elem.index other in
        ih
        ∙ ap (λ m. or_else m (index_of (first_alike (alike same_name) elems (key x other))))
            (unfold duplicate_key in step)
        ∙ first_of (meaning new other) elem elems other

    duplicate-meaning :
        (dict : x.Tree) (other : List ℕ)
        → meaning (dict_duplicate x dict) other ≡ meaning dict other
    unfolding dict_duplicate dict_alloc
    duplicate-meaning dict other =
        let e = x.find-init (key x other) in
        let w = x.walk-find dict (key x other) in
        duplicate_keys-meaning x.init (x.walk dict) other ∙ rw (e, w) refl

    -- The run has a result, a dictionary with the indexes `f`.
    abbrev Means : Indexes → Option x.Tree → Type 0
    Means f run = (r : x.Tree) × (run ≡ some r) × ((name : List ℕ) → meaning r name ≡ f name)

    called-Means :
        (c : Call) (dict : x.Tree) → Means (changed same_name c (meaning dict)) (called c dict)
    unfolding dict_reset
    called-Means (Call.add name index) dict =
        (dict_add x dict name index, refl, add-meaning dict name index)
    called-Means (Call.remove name) dict = (dict_remove x dict name, refl, remove-meaning dict name)
    called-Means Call.reset dict =
        let (r, h, e) = reset_loop-empties (suc (x.size dict)) dict (omega arith) in
        (r, h, λ name. ap index_of (e (key x name)))
    called-Means Call.duplicate dict = (dict_duplicate x dict, refl, duplicate-meaning dict)

    calls-Means :
        (cs : List Call) (dict : x.Tree)
        → Means (replayed same_name cs (meaning dict)) (calls cs dict)
    calls-Means [] dict = (dict, refl, λ name. refl)
    calls-Means (c ∷ cs) dict =
        let (r, h, e) = called-Means c dict in
        let same : meaning r ≡ changed same_name c (meaning dict) = fun_ext e in
        rw (h, ← same) (calls-Means cs r)

  -- For a tree whose functions do what is documented, and a strncasecmp that looks at no more of a
  -- name than is stored: any sequence of calls that begins with a new dictionary ends, resets
  -- included, and then ip_noise_str2int_dict_get gives for each name the index of the first call
  -- that added it since the last one that removed it or all names, and -1 if there is none;
  -- copying changes nothing.
  pub calls-gives :
      (reads : ReadsNames same_name) (cs : List Call)
      → (r : x.Tree) × (calls cs (dict_alloc x) ≡ some r)
        × ((name : List ℕ)
            → dict_get x r name ≡ index_or_minus_one (replayed same_name cs (λ _. none) name))
  unfolding dict_alloc
  calls-gives reads cs =
      let (r, h, e) = calls-Means reads cs (dict_alloc x) in
      let fresh : meaning (dict_alloc x) ≡ (λ _. none) =
        fun_ext (λ name. ap index_of (x.find-init (key x name))) in
      (
        r,
        h,
        λ name.
            dict_get-meaning r name
            ∙ ap index_or_minus_one (e name)
            ∙ ap (λ f. index_or_minus_one (replayed same_name cs f name)) fresh,
      )
