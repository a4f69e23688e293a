-- ===== src/Dictionary.antt =====
-- The dictionary of netdisk4tc/dictionary.c and dictionary.h: a singly linked list of entries. The
-- list is the chain of `next` pointers from `first`, and a pointer to an entry is its position.
-- `V` is the content of a value's block, `D` the type of destroyers (function pointers). What an
-- operation gives back to the allocator or hands to a destroyer is returned as a list of releases.
pub mod Chain
pub mod Insert
pub mod Invariant
pub mod Lookup
pub mod Nodes
pub mod Ownership
pub mod Remove
pub mod Walk
use netdisk4tc.Base.{
  ℕ, suc, ◌+◌, ◌-◌, Bool, true, false, ◌&&◌, Option, none, some, List, [], ◌∷◌, ◌++◌, if◌then◌else◌,
  get_elem?, set, Str, eq_str, Run, ok, fault, ◌>>=◌, ◌>>◌, expect, deref,
}

-- `DICT_OK`, `DICT_FATAL` and `DICT_MISS`.
pub data Status : Type 0 where
  dict_ok dict_fatal dict_miss : Status

pub record DictEntry (V D : Type 0) : Type 0 where
  pub key : Str
  pub size : ℕ
  pub value : Option V
  pub destroyer : Option D

pub record Dictionary (V D : Type 0) : Type 0 where
  pub first : List (DictEntry V D)
  pub length : ℕ

-- What goes out of the dictionary's hands.
pub data Release (V D : Type 0) : Type 0 where
  free_key : Str → Release V D
  free_value : Option V → Release V D
  destroy : D → Option V → Release V D
  free_node : Str → Release V D

-- Which of the allocations of one call succeed.
pub record Mallocs : Type 0 where
  pub node : Bool
  pub key : Bool
  pub value : Bool

abbrev pub all_succeed : Mallocs
all_succeed = record { node = true; key = true; value = true }

module _ {V D : Type 0} where
  unfoldable pub dict_initialize : Dictionary V D
  dict_initialize = record { first = []; length = 0 }

  -- The loop of `dict_set_element_s` from entry `i`: `node` is the last entry with the key so far,
  -- and the result is `(node, iter)` behind the loop.
  unfoldable pub find_loop : Str → List (DictEntry V D) → ℕ → Option ℕ → Option ℕ × Option ℕ
  find_loop key [] i node = (node, none)
  find_loop key (e ∷ []) i node = (if eq_str key e.key then some i else node, some i)
  find_loop key (e ∷ f ∷ es) i node =
      find_loop key (f ∷ es) (suc i) (if eq_str key e.key then some i else node)

  -- `if(e->destroyer) e->destroyer(&e->value); else free(e->value);`
  abbrev pub release_with : Option D → Option V → Release V D
  release_with none v = free_value v
  release_with (some d) v = destroy d v

  abbrev pub release_value : DictEntry V D → Release V D
  release_value e = release_with e.destroyer e.value

  -- The branch `node != NULL`, which writes through `iter`.
  abbrev pub overwrite :
      Dictionary V D
      → Option ℕ
      → V
      → ℕ
      → Mallocs
      → Run (Status × Dictionary V D × List (Release V D))
  overwrite d none v size m = fault
  overwrite d (some i) v size m = do
    e ← deref (get_elem? d.first i)
    if m.value
        then ok (
          dict_ok,
          record d { first = set d.first i (record e { value = some v; size = size }) },
          release_value e ∷ [],
        )
        else ok (
          dict_fatal,
          record d { first = set d.first i (record e { value = none }) },
          release_value e ∷ [],
        )

  -- The branch `node == NULL`. The new entry goes behind `iter`, or to `first`.
  abbrev pub append_entry :
      Dictionary V D
      → Str
      → V
      → ℕ
      → Option D
      → Mallocs
      → Run (Status × Dictionary V D × List (Release V D))
  append_entry d key v size destroyer m = do
    expect m.node
    if m.key && m.value
        then ok (
          dict_ok,
          record {
            first =
                d.first
                ++ (record { key = key; size = size; value = some v; destroyer = destroyer } ∷ []);
            length = d.length + 1;
          },
          [],
        )
        else ok (dict_fatal, d, [])

  abbrev pub set_found :
      Dictionary V D
      → Str
      → V
      → ℕ
      → Option D
      → Mallocs
      → Option ℕ × Option ℕ
      → Run (Status × Dictionary V D × List (Release V D))
  set_found d key v size destroyer m (some _, iter) = overwrite d iter v size m
  set_found d key v size destroyer m (none, iter) = append_entry d key v size destroyer m

  unfoldable pub dict_set_element_s :
      Dictionary V D
      → Str
      → V
      → ℕ
      → Option D
      → Mallocs
      → Run (Status × Dictionary V D × List (Release V D))
  unfolding find_loop
  dict_set_element_s d key v size destroyer m =
      set_found d key v size destroyer m (find_loop key d.first 0 none)

  unfoldable pub dict_set_element :
      Dictionary V D → Str → V → ℕ → Mallocs → Run (Status × Dictionary V D × List (Release V D))
  unfolding dict_set_element_s
  dict_set_element d key v size m = dict_set_element_s d key v size none m

  -- The first entry with the key: the loop that the readers share.
  unfoldable pub find_entry : Str → List (DictEntry V D) → Option (DictEntry V D)
  find_entry key [] = none
  find_entry key (e ∷ es) = if eq_str key e.key then some e else find_entry key es

  -- `*value` keeps its old content on a miss.
  unfoldable pub dict_get_element_s : Dictionary V D → Str → Option V → Status × Option V
  unfolding find_entry
  dict_get_element_s d key old = elim (find_entry key d.first) [
    | none ↦ (dict_miss, old)
    | some e ↦ (dict_ok, e.value)
  ]

  -- A copy of the value, or `NULL`. The flag says whether `malloc` succeeds.
  unfoldable pub dict_get_element : Dictionary V D → Str → Bool → Run (Option V)
  unfolding find_entry
  dict_get_element d key alloc = elim (find_entry key d.first) [
    | none ↦ ok none
    | some e ↦ if alloc then (do v ← deref e.value; ok (some v)) else ok none
  ]

  unfoldable pub dict_exists : Dictionary V D → Str → Bool
  unfolding find_entry
  dict_exists d key = elim (find_entry key d.first) [ none ↦ false | some _ ↦ true ]

  unfoldable pub dict_get_element_size : Dictionary V D → Str → ℕ
  unfolding find_entry
  dict_get_element_size d key = elim (find_entry key d.first) [ none ↦ 0 | some e ↦ e.size ]

  abbrev keep_iter :
      DictEntry V D
      → Option (DictEntry V D × List (DictEntry V D))
      → Option (DictEntry V D × List (DictEntry V D))
  keep_iter e none = none
  keep_iter e (some (hit, es)) = some (hit, e ∷ es)

  -- The rounds of the loop of `dict_remove_element` from an entry on: the entry that is hit and
  -- the chain without it. An entry behind the first is seen through `iter->next`.
  unlink_next :
      Str → DictEntry V D → List (DictEntry V D) → Option (DictEntry V D × List (DictEntry V D))
  unlink_next key iter [] = none
  unlink_next key iter (e ∷ es) =
      let rest = unlink_next key e es in
      if eq_str key e.key then some (e, iter ∷ es) else keep_iter iter rest

  unlink : Str → List (DictEntry V D) → Option (DictEntry V D × List (DictEntry V D))
  unfolding unlink_next
  unlink key [] = none
  unlink key (e ∷ es) = if eq_str key e.key then some (e, es) else unlink_next key e es

  abbrev remove_found :
      Dictionary V D
      → Option (DictEntry V D × List (DictEntry V D))
      → Status × Dictionary V D × List (Release V D)
  remove_found d none = (dict_miss, d, [])
  remove_found d (some (hit, es)) = (
    dict_ok,
    record { first = es; length = d.length - 1 },
    free_key hit.key ∷ release_value hit ∷ free_node hit.key ∷ [],
  )

  unfoldable pub dict_remove_element :
      Dictionary V D → Str → Status × Dictionary V D × List (Release V D)
  unfolding unlink
  dict_remove_element d key = remove_found d (unlink key d.first)

  -- The enumerator's result is `(goes on, data)`; it may fault.
  unfoldable pub traverse_loop {ℓ} :
      {S : Type ℓ} → List (DictEntry V D) → (Str → Option V → ℕ → S → Run (Bool × S)) → S → Run S
  traverse_loop [] enumerator s = ok s
  traverse_loop (e ∷ es) enumerator s = do
    (goes_on, s') ← enumerator e.key e.value e.size s
    if goes_on then traverse_loop es enumerator s' else ok s'

  unfoldable pub dict_traverse {ℓ} :
      {S : Type ℓ} → Dictionary V D → (Str → Option V → ℕ → S → Run (Bool × S)) → S → Run S
  unfolding traverse_loop
  dict_traverse d enumerator s = traverse_loop d.first enumerator s

  unfoldable pub destroy_loop : List (DictEntry V D) → List (Release V D)
  destroy_loop [] = []
  destroy_loop (e ∷ es) = free_key e.key ∷ release_value e ∷ destroy_loop es

  -- The releases of `dict_destroy`, apart from the block of the dictionary itself.
  unfoldable pub dict_destroy : Dictionary V D → List (Release V D)
  unfolding destroy_loop
  dict_destroy d = destroy_loop d.first
