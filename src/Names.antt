-- ===== src/Names.antt =====
-- The dictionaries of names of C/arbitrator/str2int_dict.c, from names to indexes. The red-black tree
-- below them, redblack.c, is another project's: the record Trees says what its functions do.
pub mod Laws
use ip_noise.Common.{ℕ, zero, suc, ◌<◌, ◌≡◌, Bool, Option, none, some, List, [], ◌∷◌, if◌then◌else◌}
use ip_noise.Common.Int.{ℤ, pos, negsuc}
use ip_noise.Model.Alloc.{id_len, strncpy}

-- The first element of a list that is like `k`.
abbrev pub first_alike {ℓ} : {A : Type ℓ} → (A → A → Bool) → List A → A → Option A
first_alike alike [] k = none
first_alike alike (e ∷ l) k = if alike e k then some e else first_alike alike l k

-- struct str2int_dict_elem_struct
pub record DictElem : Type 0 where
  pub name : List ℕ
  pub index : ℤ

-- str2int_dict_compare gives 0: strncasecmp(key1->name, key2->name, sizeof(ip_noise_id_t)) == 0, where
-- `same_name` is that of the C library.
abbrev pub alike : (List ℕ → List ℕ → Bool) → DictElem → DictElem → Bool
alike same_name key1 key2 = same_name key1.name key2.name

-- `a`, or `e` if there is no `a`.
abbrev pub or_elem : Option DictElem → DictElem → Option DictElem
or_elem none e = some e
or_elem (some f) e = some f

-- A tree of elements, for a comparison that gives 0 for those that are alike:
-- rbinit, rbfind, rbsearch, which puts an element in unless there is one like it, rbdelete, rbmin, and
-- the elements for which rbwalk calls the action, in order, an element several times if it has children.
pub record Trees (same_name : List ℕ → List ℕ → Bool) : Type 1 where
  pub Tree : Type 0
  pub init : Tree
  pub find : Tree → DictElem → Option DictElem
  pub search : Tree → DictElem → Tree
  pub delete : Tree → DictElem → Tree
  pub minimum : Tree → Option DictElem
  pub walk : Tree → List DictElem
  pub size : Tree → ℕ
  pub find-init : (k : DictElem) → find init k ≡ none
  pub find-search :
      (t : Tree) (e k : DictElem)
      → find (search t e) k ≡ (if alike same_name e k then or_elem (find t k) e else find t k)
  pub find-delete :
      (t : Tree) (e k : DictElem)
      → find (delete t e) k ≡ (if alike same_name e k then none else find t k)
  pub minimum-none : (t : Tree) (k : DictElem) → minimum t ≡ none → find t k ≡ none
  pub minimum-find : (t : Tree) (e : DictElem) → minimum t ≡ some e → find t e ≡ some e
  pub size-delete : (t : Tree) (e f : DictElem) → find t e ≡ some f → size (delete t e) < size t
  pub walk-find : (t : Tree) (k : DictElem) → first_alike (alike same_name) (walk t) k ≡ find t k

module _ {same_name : List ℕ → List ℕ → Bool} (x : Trees same_name) where
  -- A key for a search: only its name is set and read.
  unfoldable pub key : List ℕ → DictElem
  unfolding strncpy
  key name = record { name = strncpy id_len name; index = pos 0 }

  -- ip_noise_str2int_dict_alloc
  unfoldable pub dict_alloc : x.Tree
  dict_alloc = x.init

  -- ip_noise_str2int_dict_get
  unfoldable pub dict_get : x.Tree → List ℕ → ℤ
  unfolding key
  dict_get dict name = elim (x.find dict (key name)) [ none ↦ negsuc 0 | some ret ↦ ret.index ]

  -- ip_noise_str2int_dict_add
  unfoldable pub dict_add : x.Tree → List ℕ → ℤ → x.Tree
  unfolding strncpy
  dict_add dict name index = x.search dict (record { name = strncpy id_len name; index = index })

  -- ip_noise_str2int_dict_remove
  unfoldable pub dict_remove : x.Tree → List ℕ → x.Tree
  unfolding key
  dict_remove dict name = x.delete dict (key name)

  -- The loop of ip_noise_str2int_dict_reset; `none` when the fuel runs out.
  unfoldable pub reset_loop : ℕ → x.Tree → Option x.Tree
  reset_loop zero dict = none
  reset_loop (suc fuel) dict = elim (x.minimum dict) [
    | none ↦ some dict
    | some myelem ↦ reset_loop fuel (x.delete dict myelem)
  ]

  -- ip_noise_str2int_dict_reset
  unfoldable pub dict_reset : x.Tree → Option x.Tree
  unfolding reset_loop
  dict_reset dict = reset_loop (suc (x.size dict)) dict

  -- duplicate_key
  unfoldable pub duplicate_key : x.Tree → DictElem → x.Tree
  unfolding dict_add
  duplicate_key new elem = dict_add new elem.name elem.index

  -- What rbwalk does with the elements.
  unfoldable pub duplicate_keys : x.Tree → List DictElem → x.Tree
  unfolding duplicate_key
  duplicate_keys new [] = new
  duplicate_keys new (elem ∷ elems) = duplicate_keys (duplicate_key new elem) elems

  -- ip_noise_str2int_dict_duplicate
  unfoldable pub dict_duplicate : x.Tree → x.Tree
  unfolding dict_alloc duplicate_keys
  dict_duplicate old = duplicate_keys dict_alloc (x.walk old)
