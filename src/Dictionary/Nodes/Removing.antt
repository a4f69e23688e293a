-- ===== src/Dictionary/Nodes/Removing.antt =====
-- `dict_remove_element` on memory: the node that its loop takes out, and the chain without it.
use netdisk4tc.Base.{
  ℕ, zero, suc, ◌+◌, ◌<◌, ◌≡◌, ==_refl, Bool, ◌&&◌, ◌==◌, refl, ◌∙◌, inl, inr, true, false, none,
  some, [], ◌∷◌, arith, if◌then◌else◌, length, Bool-cases, Str, eq_str, Run, ok, ◌>>=◌,
}
use netdisk4tc.Dictionary.{DictEntry, find_entry}
use netdisk4tc.Dictionary.Remove.{erase}
use netdisk4tc.Dictionary.Nodes.{Ptr, null, node, Heap, write, unlink_node}
use netdisk4tc.Dictionary.Nodes.Seg.{
  Cells, entries, has, Points, not_null, load-ok, Seg, nil, cons, frame-write,
}

not_head : (first p : Ptr) (b : Bool) → b ≡ false → ((first == p) && b) ≡ false
not_head first p b miss = ground arith

module _ {V D : Type 0} where
  -- The nodes without the first one with the key.
  abbrev pub drop_key : Str → Cells V D → Cells V D
  drop_key key [] = []
  drop_key key ((p, e) ∷ xs) = if eq_str key e.key then xs else (p, e) ∷ drop_key key xs

  pub entries-drop_key :
      (key : Str) (xs : Cells V D) → entries (drop_key key xs) ≡ erase key (entries xs)
  entries-drop_key key [] = refl
  entries-drop_key key ((p, e) ∷ xs) = ground (arith, entries-drop_key key xs)

  has-drop_key :
      (a : Ptr) (key : Str) (xs : Cells V D) → has a xs ≡ false → has a (drop_key key xs) ≡ false
  has-drop_key a key [] out = refl
  has-drop_key a key ((p, e) ∷ xs) out = ground (arith, has-drop_key a key xs)

  -- The node `hit` with the content `e` is out of the chain from `p`.
  pub record Unlinked (key : Str) (h : Heap V D) (p : Ptr) (xs : Cells V D) (e : DictEntry V D)
      (hit : Ptr) (g : Heap V D) : Type 0 where
    pub next : Ptr
    pub at : Points g hit e next
    pub chain : Seg g p (drop_key key xs)
    pub inside : has hit xs ≡ true
    pub out : has hit (drop_key key xs) ≡ false
    pub same : (a : Ptr) → has a xs ≡ false → g a ≡ h a

  module _ {h : Heap V D} (key : Str) {p : Ptr} {v : DictEntry V D}
      (miss : eq_str key v.key ≡ false) where
    unlink-Unlinked :
        {q r : Ptr} {e : DictEntry V D} {xs : Cells V D}
        → Points h p v q
        → has p ((q, e) ∷ xs) ≡ false
        → Points h q e r
        → has q xs ≡ false
        → Seg h r xs
        → eq_str key e.key ≡ true
        → Unlinked key h p ((p, v) ∷ (q, e) ∷ xs) e q (write h p (some (node v r)))
    unfolding write
    unlink-Unlinked {q} {r} {e} {xs} at out at' out' s hit =
        let apart : has q ((p, v) ∷ xs) ≡ false = ground arith in
        record {
          next = r;
          at = record { ne_null = at'.ne_null; holds = ground (arith, at'.holds) };
          chain =
              rw (miss, hit)
                (cons (record { ne_null = at.ne_null; holds = ground arith }) (ground arith)
                  (frame-write p (some (node v r)) s (ground arith)));
          inside = ground arith;
          out = rw (miss, hit) apart;
          same = λ a o. ground arith;
        }

    Unlinked-cons :
        {q hit : Ptr} {e : DictEntry V D} {xs : Cells V D} {g : Heap V D}
        → Points h p v q
        → has p xs ≡ false
        → Unlinked key h q xs e hit g
        → Unlinked key h p ((p, v) ∷ xs) e hit g
    Unlinked-cons {hit} {xs} at out u =
        let still = u.same p out in
        let u_inside = u.inside in
        let u_out = u.out in
        record {
          next = u.next;
          at = u.at;
          chain = rw miss (
              cons (record { ne_null = at.ne_null; holds = still ∙ at.holds })
                (has-drop_key p key xs out) u.chain);
          inside = ground arith;
          out = rw miss (ground arith);
          same = λ a o. u.same a (ground arith);
        }

  -- What the loop leaves from the node at `p` on: `hit` is `NULL`, or the node that is out.
  pub data Outcome (key : Str) (h : Heap V D) (first p : Ptr) (xs : Cells V D)
      (r : Run (Ptr × Ptr × Heap V D)) : Type 0 where
    absent :
        find_entry key (entries xs) ≡ none → r ≡ ok (null, first, h) → Outcome key h first p xs r
    taken :
        {e : DictEntry V D} {hit : Ptr} {g : Heap V D}
        → find_entry key (entries xs) ≡ some e
        → r ≡ ok (hit, first, g)
        → Unlinked key h p xs e hit g
        → Outcome key h first p xs r

  unlink_node-end :
      {h : Heap V D} (fuel : ℕ) (key : Str) (first : Ptr)
      → 0 < fuel
      → unlink_node fuel key first null h ≡ ok (null, first, h)
  unfolding unlink_node
  unlink_node-end zero key first enough = absurd (omega arith)
  unlink_node-end (suc fuel) key first enough = refl

  Outcome-cons :
      {h : Heap V D} {key : Str} {first p q : Ptr} {v : DictEntry V D} {xs : Cells V D}
      {r r' : Run (Ptr × Ptr × Heap V D)}
      → eq_str key v.key ≡ false
      → Points h p v q
      → has p xs ≡ false
      → r' ≡ r
      → Outcome key h first q xs r
      → Outcome key h first p ((p, v) ∷ xs) r'
  unfolding find_entry
  Outcome-cons miss at out same (absent new e) = absent (rw (find_entry, miss) new) (same ∙ e)
  Outcome-cons {key} miss at out same (taken found e u) =
      taken (rw (find_entry, miss) found) (same ∙ e) (Unlinked-cons key miss at out u)

  -- A round that goes on.
  unlink_node_skips :
      {h : Heap V D} (fuel : ℕ) (key : Str) (first : Ptr) {p q q' : Ptr} {v e : DictEntry V D}
      {r : Run (Ptr × Ptr × Heap V D)}
      → eq_str key v.key ≡ false
      → Points h p v q
      → eq_str key e.key ≡ false
      → Points h q e q'
      → unlink_node fuel key first q h ≡ r
      → unlink_node (suc fuel) key first p h ≡ r
  unfolding unlink_node
  unlink_node_skips fuel key first {p} miss at miss' at' rest =
      rw
        (
          unlink_node,
          not_null at,
          load-ok at,
          ◌>>=◌,
          not_head first p _ miss,
          not_null at',
          load-ok at',
          miss',
        )
        rest

  unlink_node-behind :
      {h : Heap V D} (fuel : ℕ) (key : Str) (first : Ptr) {p q : Ptr} {v : DictEntry V D}
      {xs : Cells V D}
      → eq_str key v.key ≡ false
      → Points h p v q
      → has p xs ≡ false
      → Seg h q xs
      → length xs + 1 < fuel
      → Outcome key h first p ((p, v) ∷ xs) (unlink_node fuel key first p h)
  unfolding unlink_node find_entry
  unlink_node-behind zero key first miss at out s enough = absurd (omega arith)
  unlink_node-behind (suc fuel) key first {p} miss at out nil enough =
      absent (rw (find_entry, miss)) (
        rw (unlink_node, not_null at, load-ok at, ◌>>=◌, not_head first p _ miss)
          (unlink_node-end fuel key first (omega arith)))
  unlink_node-behind (suc fuel) key first {p} miss at out (cons {e} at' out' s) enough =
      elim (Bool-cases (eq_str key e.key)) [
        | inl hit ↦
            taken (rw (find_entry, miss, hit))
              (rw (
                unlink_node,
                not_null at,
                load-ok at,
                ◌>>=◌,
                not_head first p _ miss,
                not_null at',
                load-ok at',
                hit,
              ))
              (unlink-Unlinked key miss at out at' out' s hit)
        | inr miss' ↦
            Outcome-cons miss at out (unlink_node_skips fuel key first miss at miss' at' refl)
              (unlink_node-behind fuel key first miss' at' out' s (omega arith))
      ]

  -- What the whole loop leaves.
  pub data Removal (key : Str) (h : Heap V D) (p : Ptr) (xs : Cells V D)
      (r : Run (Ptr × Ptr × Heap V D)) : Type 0 where
    missed : find_entry key (entries xs) ≡ none → r ≡ ok (null, p, h) → Removal key h p xs r
    removed :
        {e : DictEntry V D} {hit first next : Ptr} {g : Heap V D}
        → find_entry key (entries xs) ≡ some e
        → r ≡ ok (hit, first, g)
        → Points g hit e next
        → Seg g first (drop_key key xs)
        → has hit (drop_key key xs) ≡ false
        → Removal key h p xs r

  of_Outcome :
      {key : Str} {h : Heap V D} {p : Ptr} {xs : Cells V D} {r : Run (Ptr × Ptr × Heap V D)}
      → Outcome key h p p xs r
      → Removal key h p xs r
  of_Outcome (absent new e) = missed new e
  of_Outcome (taken found e u) = removed found e u.at u.chain u.out

  pub unlink_node-Removal :
      {h : Heap V D} (fuel : ℕ) (key : Str) {p : Ptr} {xs : Cells V D}
      → Seg h p xs
      → length xs < fuel
      → Removal key h p xs (unlink_node fuel key p p h)
  unfolding unlink_node find_entry
  unlink_node-Removal fuel key nil enough = missed refl (unlink_node-end fuel key null enough)
  unlink_node-Removal zero key s enough = absurd (omega arith)
  unlink_node-Removal (suc fuel) key (cons {p} {q} {e} at out s) enough =
      elim (Bool-cases (eq_str key e.key)) [
        | inl hit ↦
            removed {first = q} (rw (find_entry, hit))
              (rw (unlink_node, not_null at, load-ok at, ◌>>=◌, ==_refl p, hit)) at (rw hit s)
              (rw hit out)
        | inr miss ↦ of_Outcome (unlink_node-behind (suc fuel) key p miss at out s (omega arith))
      ]
