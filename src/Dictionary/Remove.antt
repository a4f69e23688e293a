-- ===== src/Dictionary/Remove.antt =====
-- `dict_remove_element` against erasing the first entry with the key.
use netdisk4tc.Base.{
  suc, ◌≡◌, refl, ap, inl, inr, Option, none, some, List, [], ◌∷◌, arith, if◌then◌else◌, length,
  Option-cases, Bool-cases, Str, eq_str, eq_str_iff,
}
use netdisk4tc.Dictionary.{
  dict_ok, dict_miss, DictEntry, Dictionary, find_entry, dict_get_element_s, dict_exists,
  dict_remove_element, unlink, unlink_next, remove_found,
}
use netdisk4tc.Dictionary.Invariant.{NodupKeys, IsDictionary}

module _ {V D : Type 0} where
  abbrev pub erase : Str → List (DictEntry V D) → List (DictEntry V D)
  erase k [] = []
  erase k (e ∷ es) = if eq_str k e.key then es else e ∷ erase k es

  abbrev pub with_rest :
      Option (DictEntry V D) → List (DictEntry V D) → Option (DictEntry V D × List (DictEntry V D))
  with_rest none es = none
  with_rest (some e) es = some (e, es)

  unlink_next-erase :
      (k : Str) (iter : DictEntry V D) (es : List (DictEntry V D))
      → unlink_next k iter es ≡ with_rest (find_entry k es) (iter ∷ erase k es)
  unfolding unlink_next find_entry
  unlink_next-erase k iter [] = refl
  unlink_next-erase k iter (e ∷ es) = ground (arith, unlink_next-erase k e es)

  unlink-erase :
      (k : Str) (es : List (DictEntry V D)) → unlink k es ≡ with_rest (find_entry k es) (erase k es)
  unfolding unlink find_entry
  unlink-erase k [] = refl
  unlink-erase k (e ∷ es) = ground (arith, unlink_next-erase k e es)

  pub remove-erase :
      (d : Dictionary V D) (k : Str)
      → dict_remove_element d k
        ≡ remove_found d (with_rest (find_entry k d.first) (erase k d.first))
  unfolding dict_remove_element
  remove-erase d k = ap (remove_found d) (unlink-erase k d.first)

  find_entry-erase :
      (j k : Str) (es : List (DictEntry V D))
      → NodupKeys es
      → find_entry j (erase k es) ≡ (if eq_str j k then none else find_entry j es)
  unfolding find_entry
  find_entry-erase j k [] _ = ground arith
  find_entry-erase j k (e ∷ es) (fresh, h) = elim (Bool-cases (eq_str j e.key)) [
    | inl same ↦
        let missing : find_entry j es ≡ none = rw ((eq_str_iff j e.key).0 same) fresh in
        ground
          (arith, eq_str_iff j k, eq_str_iff k e.key, eq_str_iff j e.key, find_entry-erase j k es h)
    | inr other ↦
        ground
          (arith, eq_str_iff j k, eq_str_iff k e.key, eq_str_iff j e.key, find_entry-erase j k es h)
  ]

  erase-NodupKeys : (k : Str) (es : List (DictEntry V D)) → NodupKeys es → NodupKeys (erase k es)
  unfolding find_entry
  erase-NodupKeys k [] _ = tt
  erase-NodupKeys k (e ∷ es) (fresh, h) =
      ground (arith, erase-NodupKeys k es h, find_entry-erase e.key k es h)

  length-erase :
      (k : Str) (es : List (DictEntry V D)) (e : DictEntry V D)
      → find_entry k es ≡ some e
      → length es ≡ suc (length (erase k es))
  unfolding find_entry
  length-erase k [] e h = cc
  length-erase k (x ∷ es) e h = ground (arith, length-erase k es e)

  missed :
      (d : Dictionary V D) (k j : Str) (old : Option V)
      → find_entry k d.first ≡ none
      → dict_get_element_s d j old
        ≡ (if eq_str j k then (dict_miss, old) else dict_get_element_s d j old)
  unfolding dict_get_element_s
  missed d k j old e = elim (Bool-cases (eq_str j k)) [
    | inl same ↦
        let missing : find_entry j d.first ≡ none = rw ((eq_str_iff j k).0 same) e in ground arith
    | inr other ↦ rw other
  ]

  -- Removing a key from a dictionary with distinct keys: the call says whether the key was there;
  -- afterwards a read of the key misses, a read of any other key gives what it gave before, and
  -- the invariant holds.
  pub dict_remove_element_lem :
      (d : Dictionary V D) (k j : Str) (old : Option V)
      → IsDictionary d
      → ((dict_remove_element d k).0 ≡ (if dict_exists d k then dict_ok else dict_miss))
        × (dict_get_element_s (dict_remove_element d k).1 j old
            ≡ (if eq_str j k then (dict_miss, old) else dict_get_element_s d j old))
        × IsDictionary (dict_remove_element d k).1
  unfolding dict_get_element_s dict_exists
  dict_remove_element_lem d k j old is =
      rw remove-erase (elim (Option-cases (find_entry k d.first)) [
        | inl e ↦ rw e (ground arith, missed d k j old e, is)
        | inr (x, e) ↦ rw e (
          ground arith,
          ground (arith, find_entry-erase j k d.first is.distinct),
          record {
            counted = omega (arith, is.counted, length-erase k d.first x e);
            distinct = erase-NodupKeys k d.first is.distinct;
          },
        )
      ])
