-- ===== src/Dictionary/Nodes/Setting.antt =====
-- `dict_set_element_s` on memory: what its loop finds, and the chain behind its writes.
use netdisk4tc.Base.{
  ℕ, zero, suc, ◌<◌, ◌≡◌, ◌≢◌, refl, ◌∙◌, inl, inr, true, false, ◌||◌, none, some, [], ◌∷◌, ◌++◌,
  arith, if◌then◌else◌, length, Bool-cases, ◌==◌, Str, eq_str, ok, ◌>>=◌,
}
use netdisk4tc.Dictionary.{DictEntry, find_entry}
use netdisk4tc.Dictionary.Nodes.{Ptr, null, node, Heap, write, find_node}
use netdisk4tc.Dictionary.Nodes.Seg.{
  Cells, entries, has, Points, not_null, load-ok, Seg, nil, cons, has-unused,
}

module _ {V D : Type 0} where
  -- `node` and `iter` behind the loop of `dict_set_element_s`.
  abbrev pub last_hit : Str → Cells V D → Ptr → Ptr
  last_hit key [] hit = hit
  last_hit key ((p, e) ∷ xs) hit = last_hit key xs (if eq_str key e.key then p else hit)

  abbrev pub last_address : Cells V D → Ptr → Ptr
  last_address [] p = p
  last_address ((q, _) ∷ xs) p = last_address xs q

  pub last_address-concat :
      (ys : Cells V D) (l : Ptr) (e : DictEntry V D) (p : Ptr)
      → last_address (ys ++ ((l, e) ∷ [])) p ≡ l
  last_address-concat [] l e p = refl
  last_address-concat ((q, _) ∷ ys) l e p = last_address-concat ys l e q

  pub find_node-last :
      {h : Heap V D} (fuel : ℕ) (key : Str) (hit : Ptr) {p : Ptr} {xs : Cells V D}
      → Seg h p xs
      → length xs < fuel
      → find_node fuel key p hit h ≡ ok (last_hit key xs hit, last_address xs null)
  unfolding find_node
  find_node-last zero key hit s enough = absurd (omega arith)
  find_node-last (suc fuel) key hit nil enough = refl
  find_node-last (suc fuel) key hit (cons at out nil) enough =
      rw (find_node, not_null at, load-ok at)
  find_node-last (suc fuel) key hit (cons {p} {e} at out (cons at' out' s)) enough =
      rw (find_node, not_null at, load-ok at, ◌>>=◌, not_null at')
        (find_node-last fuel key (if eq_str key e.key then p else hit) (cons at' out' s)
          (omega arith))

  pub last_hit-absent :
      (key : Str) (xs : Cells V D)
      → find_entry key (entries xs) ≡ none
      → last_hit key xs null ≡ null
  unfolding find_entry
  last_hit-absent key [] new = refl
  last_hit-absent key ((p, e) ∷ xs) new = ground (arith, last_hit-absent key xs)

  last_hit-not_null :
      {h : Heap V D} (key : Str) (hit : Ptr) {p : Ptr} {xs : Cells V D}
      → Seg h p xs
      → (hit == null) ≡ false
      → (last_hit key xs hit == null) ≡ false
  last_hit-not_null key hit nil some_hit = some_hit
  last_hit-not_null key hit (cons {p} {e} at out s) some_hit =
      last_hit-not_null key (if eq_str key e.key then p else hit) s (ground (arith, not_null at))

  pub last_hit-present :
      {h : Heap V D} (key : Str) {p : Ptr} {xs : Cells V D} {e : DictEntry V D}
      → Seg h p xs
      → find_entry key (entries xs) ≡ some e
      → (last_hit key xs null == null) ≡ false
  unfolding find_entry
  last_hit-present key nil found = cc
  last_hit-present key (cons {p} {e = x} at out s) found = elim (Bool-cases (eq_str key x.key)) [
    | inl hit ↦ rw hit (last_hit-not_null key p s (not_null at))
    | inr miss ↦ rw miss (last_hit-present key s (rw miss at found))
  ]

  has-append : (a : Ptr) (xs ys : Cells V D) → has a (xs ++ ys) ≡ (has a xs || has a ys)
  has-append a [] ys = refl
  has-append a (x ∷ xs) ys = ground (arith, has-append a xs ys)

  pub last-Points :
      {h : Heap V D} {p : Ptr} (ys : Cells V D) (l : Ptr) (e : DictEntry V D)
      → Seg h p (ys ++ ((l, e) ∷ []))
      → Points h l e null
  last-Points [] l e (cons at out nil) = at
  last-Points (y ∷ ys) l e (cons at out s) = last-Points ys l e s

  last-apart :
      {h : Heap V D} {p : Ptr} (ys : Cells V D) (l : Ptr) (e : DictEntry V D)
      → Seg h p (ys ++ ((l, e) ∷ []))
      → has l ys ≡ false
  last-apart [] l e s = refl
  last-apart (y ∷ ys) l e (cons at out s) =
      ground (arith, last-apart ys l e s, has-append y.0 ys ((l, e) ∷ []))

  -- The last node may be written anew and lead on to other nodes.
  Seg-relink :
      {h g : Heap V D} {p q : Ptr} {e' : DictEntry V D} (ys : Cells V D) (l : Ptr)
      (e : DictEntry V D) {zs : Cells V D}
      → Seg h p (ys ++ ((l, e) ∷ []))
      → ((a : Ptr) → has a ys ≡ true → (g a ≡ h a) × (has a zs ≡ false))
      → Points g l e' q
      → has l zs ≡ false
      → Seg g q zs
      → Seg g p (ys ++ ((l, e') ∷ zs))
  Seg-relink [] l e (cons at out nil) same last apart s = cons last apart s
  Seg-relink {e'} (y ∷ ys) l e {zs} (cons {p} at out t) same last apart s =
      cons (record { ne_null = at.ne_null; holds = (same p (ground arith)).0 ∙ at.holds })
        (ground (arith, has-append p ys ((l, e) ∷ []), has-append p ys ((l, e') ∷ zs), same p))
        (Seg-relink ys l e t (λ a i. same a (ground arith)) last apart s)

  pub Seg-write_last :
      {h : Heap V D} {p : Ptr} (e' : DictEntry V D) (ys : Cells V D) (l : Ptr) (e : DictEntry V D)
      → Seg h p (ys ++ ((l, e) ∷ []))
      → Seg (write h l (some (node e' null))) p (ys ++ ((l, e') ∷ []))
  unfolding write
  Seg-write_last e' ys l e s =
      let apart = last-apart ys l e s in
      let at = last-Points ys l e s in
      Seg-relink ys l e s (λ a i. (ground arith, refl))
        (record { ne_null = at.ne_null; holds = ground arith }) refl nil

  pub Seg-link :
      {h : Heap V D} {p fresh : Ptr} (f : DictEntry V D) (ys : Cells V D) (l : Ptr)
      (e : DictEntry V D)
      → Seg h p (ys ++ ((l, e) ∷ []))
      → fresh ≢ null
      → h fresh ≡ none
      → Seg
          (write (write h fresh (some (node f null))) l (some (node e fresh)))
          p
          (ys ++ ((l, e) ∷ (fresh, f) ∷ []))
  unfolding write
  Seg-link {fresh} f ys l e s real unused =
      let apart = last-apart ys l e s in
      let at = last-Points ys l e s in
      let new = has-unused fresh s unused in
      let new' = has-append fresh ys ((l, e) ∷ []) in
      Seg-relink ys l e s (λ a i. (ground arith, ground arith))
        (record { ne_null = at.ne_null; holds = ground arith }) (ground arith)
        (cons (record { ne_null = real; holds = ground arith }) refl nil)
