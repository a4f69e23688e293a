-- ===== src/Dictionary/Nodes/Seg.antt =====
-- Chains of nodes with their addresses.
use netdisk4tc.Base.{
  ◌≡◌, ◌≢◌, refl, ◌∙◌, ap, Bool, true, false, ◌||◌, Option, none, some, List, [], ◌∷◌, ◌++◌, arith,
  ◌==◌, ok,
}
use netdisk4tc.Dictionary.{DictEntry}
use netdisk4tc.Dictionary.Nodes.{Ptr, null, Node, node, Heap, write, load}

-- The address and the content of each node, in order.
abbrev pub Cells : Type 0 → Type 0 → Type 0
Cells V D = List (Ptr × DictEntry V D)

module _ {V D : Type 0} where
  abbrev pub entries : Cells V D → List (DictEntry V D)
  entries [] = []
  entries ((_, e) ∷ xs) = e ∷ entries xs

  abbrev pub has : Ptr → Cells V D → Bool
  has a [] = false
  has a ((p, _) ∷ xs) = (a == p) || has a xs

  pub entries-append : (xs ys : Cells V D) → entries (xs ++ ys) ≡ entries xs ++ entries ys
  entries-append [] ys = refl
  entries-append ((_, e) ∷ xs) ys =
      ap (λ (es : List (DictEntry V D)). e ∷ es) (entries-append xs ys)

  pub record Points (h : Heap V D) (p : Ptr) (e : DictEntry V D) (q : Ptr) : Type 0 where
    pub ne_null : p ≢ null
    pub holds : h p ≡ some (node e q)

  module _ {h : Heap V D} {p q : Ptr} {e : DictEntry V D} (at : Points h p e q) where
    pub not_null : (p == null) ≡ false
    not_null = ground (arith, at.ne_null)

    pub load-ok : load p h ≡ ok (node e q)
    unfolding load
    load-ok = rw (not_null, at.holds)

  pub Points-write :
      (h : Heap V D) {p : Ptr} (e : DictEntry V D) (q : Ptr)
      → p ≢ null
      → Points (write h p (some (node e q))) p e q
  unfolding write
  Points-write h e q real = record { ne_null = real; holds = ground arith }

  -- A node stays where an unused address is written.
  pub Points-unused :
      {h : Heap V D} {p q a : Ptr} {e : DictEntry V D} (c : Option (Node V D))
      → Points h p e q
      → h a ≡ none
      → Points (write h a c) p e q
  unfolding write
  Points-unused c at unused = record { ne_null = at.ne_null; holds = ground (arith, at.holds) }

  -- From `p` the `next` pointers lead through the distinct nodes `xs` to the end.
  pub data Seg (h : Heap V D) : Ptr → Cells V D → Type 0 where
    nil : Seg h null []
    cons :
        {p q : Ptr} {e : DictEntry V D} {xs : Cells V D}
        → Points h p e q
        → has p xs ≡ false
        → Seg h q xs
        → Seg h p ((p, e) ∷ xs)

  -- A chain survives any change that spares its own addresses.
  pub frame :
      {h g : Heap V D} {p : Ptr} {xs : Cells V D}
      → Seg h p xs
      → ((a : Ptr) → has a xs ≡ true → g a ≡ h a)
      → Seg g p xs
  frame nil same = nil
  frame (cons {p} at out s) same =
      cons (record { ne_null = at.ne_null; holds = same p (ground arith) ∙ at.holds }) out
        (frame s λ a i. same a (ground arith))

  pub frame-write :
      {h : Heap V D} {p : Ptr} {xs : Cells V D} (a : Ptr) (c : Option (Node V D))
      → Seg h p xs
      → has a xs ≡ false
      → Seg (write h a c) p xs
  unfolding write
  frame-write a c s out = frame s (ground arith)

  pub has-unused :
      {h : Heap V D} {p : Ptr} {xs : Cells V D} (a : Ptr)
      → Seg h p xs
      → h a ≡ none
      → has a xs ≡ false
  has-unused a nil unused = refl
  has-unused a (cons at out s) unused = ground (arith, at.holds, has-unused a s unused)
