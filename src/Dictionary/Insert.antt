-- ===== src/Dictionary/Insert.antt =====
-- `dict_set_element_s` as equations: a new key goes to the end of the chain, and a key that is
-- present has the value of the last entry replaced, whichever entry that is.
use netdisk4tc.Base.{
  ℕ, ◌≡◌, refl, ap, ◌∙◌, Option, none, some, List, [], ◌∷◌, ◌++◌, arith, if◌then◌else◌, length,
  get_elem?-concat, set-concat, Str, Run, ok,
}
use netdisk4tc.Dictionary.{
  Status, dict_ok, dict_fatal, DictEntry, Dictionary, Release, Mallocs, find_loop, release_value,
  append_entry, overwrite, set_found, dict_set_element, dict_set_element_s, find_entry,
}
use netdisk4tc.Dictionary.Chain.{find_loop-iter, find_loop-absent, find_loop-present}

module _ {V D : Type 0} where
  -- The entry that a new key gets.
  abbrev pub new_entry : Str → V → ℕ → Option D → DictEntry V D
  new_entry k v n f = record { key = k; size = n; value = some v; destroyer = f }

  abbrev pub set_value : DictEntry V D → V → ℕ → DictEntry V D
  set_value e v n = record e { value = some v; size = n }

  pub set-absent :
      (d : Dictionary V D) (k : Str) (v : V) (n : ℕ) (f : Option D) (m : Mallocs)
      → find_entry k d.first ≡ none
      → dict_set_element_s d k v n f m ≡ append_entry d k v n f m
  unfolding dict_set_element_s
  set-absent d k v n f m h = absent (find_loop k d.first 0 none) (find_loop-absent k d.first 0 h)
    where
      absent :
          (r : Option ℕ × Option ℕ)
          → r.0 ≡ none
          → set_found d k v n f m r ≡ append_entry d k v n f m
      absent (none, _) e = refl
      absent (some _, _) e = cc

  pub dict_set_element-absent :
      (d : Dictionary V D) (k : Str) (v : V) (n : ℕ) (m : Mallocs)
      → find_entry k d.first ≡ none
      → dict_set_element d k v n m ≡ append_entry d k v n none m
  unfolding dict_set_element
  dict_set_element-absent d k v n m h = set-absent d k v n none m h

  -- The outcome of an overwrite of the last entry.
  abbrev pub overwritten :
      Dictionary V D
      → V
      → ℕ
      → Mallocs
      → List (DictEntry V D)
      → DictEntry V D
      → Run (Status × Dictionary V D × List (Release V D))
  overwritten d v n m es last =
      if m.value
      then ok
          (dict_ok, record d { first = es ++ (set_value last v n ∷ []) }, release_value last ∷ [])
      else ok (
        dict_fatal,
        record d { first = es ++ (record last { value = none } ∷ []) },
        release_value last ∷ [],
      )

  overwrite-last :
      (d : Dictionary V D) (v : V) (n : ℕ) (m : Mallocs) (es : List (DictEntry V D))
      (last : DictEntry V D)
      → d.first ≡ es ++ (last ∷ [])
      → overwrite d (some (length es)) v n m ≡ overwritten d v n m es last
  overwrite-last d v n m es last e = rw (e, get_elem?-concat, set-concat, set-concat)

  present :
      (d : Dictionary V D) (k : Str) (v : V) (n : ℕ) (f : Option D) (m : Mallocs)
      (r : Option ℕ × Option ℕ) {i j : ℕ}
      → r.0 ≡ some i
      → r.1 ≡ some j
      → set_found d k v n f m r ≡ overwrite d (some j) v n m
  present d k v n f m (none, _) e e' = cc
  present d k v n f m (some _, none) e e' = cc
  present d k v n f m (some _, some _) e e' = ap (λ x. overwrite d x v n m) e'

  pub set-present :
      (d : Dictionary V D) (k : Str) (v : V) (n : ℕ) (f : Option D) (m : Mallocs)
      (es : List (DictEntry V D)) (last : DictEntry V D) {e : DictEntry V D}
      → d.first ≡ es ++ (last ∷ [])
      → find_entry k d.first ≡ some e
      → dict_set_element_s d k v n f m ≡ overwritten d v n m es last
  unfolding dict_set_element_s
  set-present d k v n f m es last split h =
      let (i, found) = find_loop-present k d.first 0 h in
      let iter : (find_loop k d.first 0 none).1 ≡ some (length es) =
        rw split (find_loop-iter k es last 0 none ∙ ap some (omega arith)) in
      present d k v n f m (find_loop k d.first 0 none) found iter
      ∙ overwrite-last d v n m es last split
