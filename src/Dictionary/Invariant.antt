-- ===== src/Dictionary/Invariant.antt =====
-- The invariant of a dictionary, and that the operations keep it on every outcome.
use netdisk4tc.Base.{
  ℕ, ◌≡◌, refl, ◌∙◌, sym, inl, inr, Option, none, List, [], ◌∷◌, ◌++◌, arith, length, length-append,
  Option-cases, Str, eq_str_comm, ok,
}
use netdisk4tc.Dictionary.{
  Status, DictEntry, Dictionary, Release, Mallocs, dict_set_element_s, find_entry, dict_initialize,
  append_entry,
}
use netdisk4tc.Dictionary.Chain.{find_entry-append, last-of_find_entry}
use netdisk4tc.Dictionary.Insert.{new_entry, set_value, set-absent, set-present, overwritten}

module _ {V D : Type 0} where
  -- No key stands twice in the chain.
  abbrev pub NodupKeys : List (DictEntry V D) → Type 0
  NodupKeys [] = Unit
  NodupKeys (e ∷ es) = (find_entry e.key es ≡ none) × NodupKeys es

  -- `length` counts the entries, and no key stands twice.
  pub record IsDictionary (d : Dictionary V D) : Type 0 where
    pub counted : d.length ≡ length d.first
    pub distinct : NodupKeys d.first

  pub dict_initialize-IsDictionary : IsDictionary dict_initialize
  unfolding dict_initialize
  dict_initialize-IsDictionary = record { counted = refl; distinct = tt }

  -- What is found at the end of a chain depends on the keys alone.
  find_entry-rekey :
      (k : Str) (es : List (DictEntry V D)) (e e' : DictEntry V D)
      → e.key ≡ e'.key
      → find_entry k (es ++ (e ∷ [])) ≡ none
      → find_entry k (es ++ (e' ∷ [])) ≡ none
  unfolding find_entry
  find_entry-rekey k [] e e' same h = ground arith
  find_entry-rekey k (x ∷ es) e e' same h = ground (arith, find_entry-rekey k es e e' same)

  pub NodupKeys-rekey :
      (es : List (DictEntry V D)) (e e' : DictEntry V D)
      → e.key ≡ e'.key
      → NodupKeys (es ++ (e ∷ []))
      → NodupKeys (es ++ (e' ∷ []))
  unfolding find_entry
  NodupKeys-rekey [] e e' same h = (refl, tt)
  NodupKeys-rekey (x ∷ es) e e' same (fresh, h) =
      (find_entry-rekey x.key es e e' same fresh, NodupKeys-rekey es e e' same h)

  pub NodupKeys-concat :
      (es : List (DictEntry V D)) (e : DictEntry V D)
      → find_entry e.key es ≡ none
      → NodupKeys es
      → NodupKeys (es ++ (e ∷ []))
  unfolding find_entry
  NodupKeys-concat [] e new h = (refl, tt)
  NodupKeys-concat (x ∷ es) e new (fresh, h) = (
    rw (find_entry-append, fresh) (ground (arith, eq_str_comm e.key x.key)),
    NodupKeys-concat es e (ground arith) h,
  )

  pub key-fresh :
      (es : List (DictEntry V D)) (e : DictEntry V D) (fs : List (DictEntry V D))
      → NodupKeys (es ++ (e ∷ fs))
      → find_entry e.key es ≡ none
  unfolding find_entry
  key-fresh [] e fs h = refl
  key-fresh (x ∷ es) e fs (fresh, h) =
      ground
        (arith, key-fresh es e fs h, find_entry-append x.key es (e ∷ fs), eq_str_comm e.key x.key)

  append_entry-IsDictionary :
      (d : Dictionary V D) (k : Str) (v : V) (n : ℕ) (f : Option D) (m : Mallocs) {st : Status}
      {d' : Dictionary V D} {out : List (Release V D)}
      → find_entry k d.first ≡ none
      → append_entry d k v n f m ≡ ok (st, d', out)
      → IsDictionary d
      → IsDictionary d'
  append_entry-IsDictionary d k v n f m new h is =
      let grown = NodupKeys-concat d.first (new_entry k v n f) new is.distinct in
      let counted = length-append d.first (new_entry k v n f ∷ []) in ground arith

  overwritten-IsDictionary :
      (d : Dictionary V D) (v : V) (n : ℕ) (m : Mallocs) (es : List (DictEntry V D))
      (last : DictEntry V D) {st : Status} {d' : Dictionary V D} {out : List (Release V D)}
      → d.first ≡ es ++ (last ∷ [])
      → overwritten d v n m es last ≡ ok (st, d', out)
      → IsDictionary d
      → IsDictionary d'
  overwritten-IsDictionary d v n m es last split h is =
      let distinct : NodupKeys (es ++ (last ∷ [])) = rw split at is.distinct in
      ground (
        arith,
        NodupKeys-rekey es last (set_value last v n) refl distinct,
        NodupKeys-rekey es last (record last { value = none }) refl distinct,
        length-append es (last ∷ []),
        length-append es (set_value last v n ∷ []),
        length-append es (record last { value = none } ∷ []),
      )

  -- Whatever allocations fail, a call that returns leaves a dictionary with the invariant.
  pub dict_set_element_s-IsDictionary :
      (d : Dictionary V D) (k : Str) (v : V) (n : ℕ) (f : Option D) (m : Mallocs) {st : Status}
      {d' : Dictionary V D} {out : List (Release V D)}
      → dict_set_element_s d k v n f m ≡ ok (st, d', out)
      → IsDictionary d
      → IsDictionary d'
  dict_set_element_s-IsDictionary d k v n f m h is = elim (Option-cases (find_entry k d.first)) [
    | inl new ↦ append_entry-IsDictionary d k v n f m new (sym (set-absent d k v n f m new) ∙ h) is
    | inr (e, hit) ↦
        let (es, last, split) = last-of_find_entry k d.first hit in
        overwritten-IsDictionary d v n m es last split
          (sym (set-present d k v n f m es last split hit) ∙ h) is
  ]
