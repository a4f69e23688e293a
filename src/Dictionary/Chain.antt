-- ===== src/Dictionary/Chain.antt =====
-- What the loop of `dict_set_element_s` leaves in `node` and `iter`.
use netdisk4tc.Base.{
  ℕ, suc, ◌+◌, ◌≡◌, refl, ap, ◌∙◌, Option, none, some, List, [], ◌∷◌, ◌++◌, arith, if◌then◌else◌,
  length, List-last_cases, Str, eq_str, Bool-cases, inl, inr,
}
use netdisk4tc.Dictionary.{DictEntry, find_loop, find_entry}

module _ {V D : Type 0} where
  -- `iter` is the last entry.
  pub find_loop-iter :
      (key : Str) (es : List (DictEntry V D)) (e : DictEntry V D) (i : ℕ) (found : Option ℕ)
      → (find_loop key (es ++ (e ∷ [])) i found).1 ≡ some (i + length es)
  unfolding find_loop
  find_loop-iter key [] e i found = ap some (omega arith)
  find_loop-iter key (f ∷ []) e i found = ap some (omega arith)
  find_loop-iter key (f ∷ g ∷ es) e i found =
      find_loop-iter key (g ∷ es) e (suc i) _ ∙ ap some (omega arith)

  -- `node` stays `NULL` where no entry has the key.
  pub find_loop-absent :
      (key : Str) (es : List (DictEntry V D)) (i : ℕ)
      → find_entry key es ≡ none
      → (find_loop key es i none).0 ≡ none
  unfolding find_loop find_entry
  find_loop-absent key [] i h = refl
  find_loop-absent key (f ∷ []) i h = ground arith
  find_loop-absent key (f ∷ g ∷ es) i h = ground (arith, find_loop-absent key (g ∷ es) (suc i))

  find_loop-some :
      (key : Str) (es : List (DictEntry V D)) (i n : ℕ)
      → (k : ℕ) × ((find_loop key es i (some n)).0 ≡ some k)
  unfolding find_loop
  find_loop-some key [] i n = (n, refl)
  find_loop-some key (f ∷ []) i n = (if eq_str key f.key then i else n, ground arith)
  find_loop-some key (f ∷ g ∷ es) i n =
      let (k, e) = find_loop-some key (g ∷ es) (suc i) (if eq_str key f.key then i else n) in
      (k, ground arith)

  -- `node` is some entry where one has the key.
  pub find_loop-present :
      (key : Str) (es : List (DictEntry V D)) (i : ℕ) {e : DictEntry V D}
      → find_entry key es ≡ some e
      → (k : ℕ) × ((find_loop key es i none).0 ≡ some k)
  unfolding find_loop find_entry
  find_loop-present key [] i h = cc
  find_loop-present key (f ∷ []) i h = (i, ground arith)
  find_loop-present key (f ∷ g ∷ es) i h = elim (Bool-cases (eq_str key f.key)) [
    | inl hit ↦ let (k, e) = find_loop-some key (g ∷ es) (suc i) i in (k, rw (find_loop, hit) e)
    | inr miss ↦
        let (k, e) = find_loop-present key (g ∷ es) (suc i) (rw miss at h) in
        (k, rw (find_loop, miss) e)
  ]

  pub find_entry-append :
      (key : Str) (es fs : List (DictEntry V D))
      → find_entry key (es ++ fs)
        ≡ elim (find_entry key es) [ none ↦ find_entry key fs | some e ↦ some e ]
  unfolding find_entry
  find_entry-append key [] fs = refl
  find_entry-append key (e ∷ es) fs = ground (arith, find_entry-append key es fs)

  -- A chain in which a key is found has a last entry.
  pub last-of_find_entry :
      (key : Str) (es : List (DictEntry V D)) {e : DictEntry V D}
      → find_entry key es ≡ some e
      → (fs : List (DictEntry V D)) × (last : DictEntry V D) × (es ≡ fs ++ (last ∷ []))
  unfolding find_entry
  last-of_find_entry key [] h = cc
  last-of_find_entry key (x ∷ es) h = elim (List-last_cases (x ∷ es)) [
    | inl nil ↦ cc
    | inr split ↦ split
  ]
