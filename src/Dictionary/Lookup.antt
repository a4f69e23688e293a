-- ===== src/Dictionary/Lookup.antt =====
-- What the readers see after `dict_set_element_s`.
use netdisk4tc.Base.{
  ℕ, ◌+◌, ◌≡◌, refl, inl, inr, true, false, Option, none, some, List, [], ◌∷◌, ◌++◌, arith,
  if◌then◌else◌, Option-cases, Bool-cases, Str, eq_str, eq_str_iff, ok,
}
use netdisk4tc.Dictionary.{
  dict_ok, DictEntry, Dictionary, all_succeed, release_value, dict_set_element_s, find_entry,
  dict_get_element_s, dict_exists,
}
use netdisk4tc.Dictionary.Chain.{find_entry-append}
use netdisk4tc.Dictionary.Insert.{new_entry, set_value, set-absent, set-present}
use netdisk4tc.Dictionary.Invariant.{IsDictionary, key-fresh}

module _ {V D : Type 0} where
  pub find_entry_of_not_exists :
      (d : Dictionary V D) (k : Str) → dict_exists d k ≡ false → find_entry k d.first ≡ none
  unfolding dict_exists
  find_entry_of_not_exists d k h = ground arith

  pub find_entry_of_exists :
      (d : Dictionary V D) (k : Str)
      → dict_exists d k ≡ true
      → (e : DictEntry V D) × (find_entry k d.first ≡ some e)
  unfolding dict_exists
  find_entry_of_exists d k h = elim (Option-cases (find_entry k d.first)) [
    | inl e ↦ cc (rw (e, dict_exists) at h)
    | inr found ↦ found
  ]

  abbrev pub grown : Dictionary V D → DictEntry V D → Dictionary V D
  grown d e = record { first = d.first ++ (e ∷ []); length = d.length + 1 }

  pub find_entry-grown :
      (es : List (DictEntry V D)) (e : DictEntry V D) (j : Str)
      → find_entry e.key es ≡ none
      → find_entry j (es ++ (e ∷ [])) ≡ (if eq_str j e.key then some e else find_entry j es)
  unfolding find_entry
  find_entry-grown es e j new = elim (Bool-cases (eq_str j e.key)) [
    | inl same ↦
        let missing : find_entry j es ≡ none = rw ((eq_str_iff j e.key).0 same) new in
        ground (arith, find_entry-append j es (e ∷ []))
    | inr other ↦ ground (arith, find_entry-append j es (e ∷ []))
  ]

  -- A key that the dictionary does not hold is added, all allocations succeeding: the call succeeds and releases nothing, the
  -- length grows by one, and a later read gives the new value at this key and what it gave before
  -- at every other.
  pub dict_get_element_s-set_absent :
      (d : Dictionary V D) (k : Str) (v : V) (n : ℕ) (f : Option D) (j : Str) (old : Option V)
      → dict_exists d k ≡ false
      → (d' : Dictionary V D) × (dict_set_element_s d k v n f all_succeed ≡ ok (dict_ok, d', []))
        × (d'.length ≡ d.length + 1)
        × (dict_get_element_s d' j old
            ≡ (if eq_str j k then (dict_ok, some v) else dict_get_element_s d j old))
  unfolding dict_get_element_s
  dict_get_element_s-set_absent d k v n f j old h =
      let new = find_entry_of_not_exists d k h in
      let e = new_entry k v n f in
      (
        grown d e,
        set-absent d k v n f all_succeed new,
        refl,
        ground (arith, find_entry-grown d.first e j new),
      )

  -- In a dictionary with distinct keys that holds the key, and where the allocations succeed, the
  -- call writes to the last entry: a
  -- later read gives the new value at the last entry's key, and what it gave before at every other
  -- key, the one of the call included. What is released is the last entry's old value.
  pub dict_get_element_s-set_present :
      (d : Dictionary V D) (k : Str) (v : V) (n : ℕ) (f : Option D) (es : List (DictEntry V D))
      (last : DictEntry V D) (j : Str) (old : Option V)
      → IsDictionary d
      → d.first ≡ es ++ (last ∷ [])
      → dict_exists d k ≡ true
      → (d' : Dictionary V D) × (dict_set_element_s d k v n f all_succeed
          ≡ ok (dict_ok, d', release_value last ∷ []))
        × (d'.length ≡ d.length)
        × (dict_get_element_s d' j old
            ≡ (if eq_str j last.key then (dict_ok, some v) else dict_get_element_s d j old))
  unfolding dict_get_element_s
  dict_get_element_s-set_present d k v n f es last j old is split h =
      let (e, hit) = find_entry_of_exists d k h in
      let fresh = key-fresh es last [] (rw split at is.distinct) in
      (
        record d { first = es ++ (set_value last v n ∷ []) },
        set-present d k v n f all_succeed es last split hit,
        refl,
        rw split (
            ground (
              arith,
              find_entry-grown es (set_value last v n) j fresh,
              find_entry-grown es last j fresh,
            )),
      )
