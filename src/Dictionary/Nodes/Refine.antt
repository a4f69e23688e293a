-- ===== src/Dictionary/Nodes/Refine.antt =====
-- The operations on memory against those on the list.
use netdisk4tc.Base.{
  ℕ, suc, ◌+◌, ◌-◌, ◌<◌, ◌≡◌, ◌≢◌, refl, sym, ap, ◌∙◌, inl, inr, ◌&&◌, Option, none, some, List, [],
  ◌∷◌, ◌++◌, append_assoc, arith, length, List-last_cases, Bool-cases, Option-cases, Str, Run, ok,
  fault,
}
use netdisk4tc.Dictionary.{
  Status, dict_ok, DictEntry, Dictionary, Release, Mallocs, dict_set_element_s, dict_remove_element,
  find_entry, append_entry,
}
use netdisk4tc.Dictionary.Insert.{set-absent, set-present, new_entry, set_value, overwritten}
use netdisk4tc.Dictionary.Remove.{erase, remove-erase}
use netdisk4tc.Dictionary.Nodes.{
  Ptr, null, Block, node, Heap, Changed, write, append_node, link_node, overwrite_node, set_node,
  remove_node,
}
use netdisk4tc.Dictionary.Nodes.Seg.{
  Cells, entries, entries-append, Points-write, Points-unused, not_null, load-ok, Seg, nil, cons,
  frame-write, has-unused,
}
use netdisk4tc.Dictionary.Nodes.Setting.{
  last_address-concat, find_node-last, last_address, last_hit-absent, last_hit-present, last-Points,
  Seg-write_last, Seg-link,
}
use netdisk4tc.Dictionary.Nodes.Removing.{
  drop_key, entries-drop_key, unlink_node-Removal, missed, removed,
}

module _ {V D : Type 0} where
  -- The structure `b` and the nodes behind it are the dictionary `d`.
  pub record Represents (h : Heap V D) (b : Block) (d : Dictionary V D) : Type 0 where
    pub cells : Cells V D
    pub chain : Seg h b.first cells
    pub same : entries cells ≡ d.first
    pub counted : b.length ≡ d.length

  -- Both fault, or both return the same status and releases and what they leave corresponds.
  pub data Simulates
      : Run (Changed V D) → Run (Status × Dictionary V D × List (Release V D)) → Type 0 where
    faults : Simulates fault fault
    returns :
        {h : Heap V D} {b : Block} {d : Dictionary V D} {st : Status} {out : List (Release V D)}
        → Represents h b d
        → Simulates (ok (st, b, out, h)) (ok (st, d, out))

  pub length-entries : (xs : Cells V D) → length (entries xs) ≡ length xs
  length-entries [] = refl
  length-entries (_ ∷ xs) = ap suc (length-entries xs)

  module _ {h : Heap V D} {b : Block} {d : Dictionary V D} (is : Represents h b d) where
    pub cells-fuel : {fuel : ℕ} → length d.first < fuel → length is.cells < fuel
    cells-fuel enough = omega (arith, length-entries is.cells, ap length is.same)

    pub remove_node-Simulates :
        {fuel : ℕ} (key : Str)
        → length d.first < fuel
        → Simulates (remove_node fuel b key h) (ok (dict_remove_element d key))
    unfolding remove_node
    remove_node-Simulates {fuel} key enough =
        elim (unlink_node-Removal fuel key is.chain (cells-fuel enough)) [
          | missed new e ↦
              rw (e, remove-erase, rw is.same at new)
                (returns (record {
                  cells = is.cells;
                  chain = is.chain;
                  same = is.same;
                  counted = is.counted;
                }))
          | removed {hit} found e at s out ↦
              rw (e, remove-erase, rw is.same at found, not_null at, at.holds)
                (returns (record {
                  cells = drop_key key is.cells;
                  chain = frame-write hit none s out;
                  same = entries-drop_key key is.cells ∙ ap (erase key) is.same;
                  counted = ap (λ n. n - 1) is.counted;
                }))
        ]

    split-entries :
        (ys : Cells V D) (l : Ptr) (e : DictEntry V D)
        → is.cells ≡ ys ++ ((l, e) ∷ [])
        → d.first ≡ entries ys ++ (e ∷ [])
    split-entries ys l e split = sym is.same ∙ ap entries split ∙ entries-append ys ((l, e) ∷ [])

    overwrite-Simulates :
        (v : V) (n : ℕ) (m : Mallocs) (ys : Cells V D) (l : Ptr) (e : DictEntry V D)
        → is.cells ≡ ys ++ ((l, e) ∷ [])
        → Simulates (overwrite_node b l v n m h) (overwritten d v n m (entries ys) e)
    overwrite-Simulates v n m ys l e split =
        let s : Seg h b.first (ys ++ ((l, e) ∷ [])) = rw split at is.chain in
        elim (Bool-cases m.value) [
          | inl stored ↦
              rw (overwrite_node, overwritten, load-ok (last-Points ys l e s), stored)
                (returns (record {
                  cells = ys ++ ((l, set_value e v n) ∷ []);
                  chain = Seg-write_last (set_value e v n) ys l e s;
                  same = entries-append ys ((l, set_value e v n) ∷ []);
                  counted = is.counted;
                }))
          | inr lost ↦
              rw (overwrite_node, overwritten, load-ok (last-Points ys l e s), lost)
                (returns (record {
                  cells = ys ++ ((l, record e { value = none }) ∷ []);
                  chain = Seg-write_last (record e { value = none }) ys l e s;
                  same = entries-append ys ((l, record e { value = none }) ∷ []);
                  counted = is.counted;
                }))
        ]

    link-Simulates :
        (e' : DictEntry V D) (fresh : Ptr)
        → fresh ≢ null
        → h fresh ≡ none
        → Simulates
            (link_node b (last_address is.cells null) fresh (write h fresh (some (node e' null))))
            (ok (dict_ok, record { first = d.first ++ (e' ∷ []); length = d.length + 1 }, []))
    link-Simulates e' fresh real unused = elim (List-last_cases is.cells) [
      | inl empty ↦ rw empty (
          returns (record {
            cells = (fresh, e') ∷ [];
            chain = cons (Points-write h e' null real) refl nil;
            same = ap (λ es. es ++ (e' ∷ [])) (sym (ap entries empty) ∙ is.same);
            counted = ap (λ k. k + 1) is.counted;
          }))
      | inr (ys, (l, e), split) ↦
          let s : Seg h b.first (ys ++ ((l, e) ∷ [])) = rw split at is.chain in
          let at = last-Points ys l e s in
          rw
            (
              link_node,
              split,
              last_address-concat,
              not_null at,
              load-ok (Points-unused (some (node e' null)) at unused),
            )
            (returns (record {
              cells = ys ++ ((l, e) ∷ (fresh, e') ∷ []);
              chain = Seg-link e' ys l e s real unused;
              same =
                  entries-append ys ((l, e) ∷ (fresh, e') ∷ [])
                  ∙ sym (append_assoc (entries ys) (e ∷ []) (e' ∷ []))
                  ∙ ap (λ es. es ++ (e' ∷ [])) (sym (split-entries ys l e split));
              counted = ap (λ k. k + 1) is.counted;
            }))
    ]

    append-Simulates :
        (key : Str) (v : V) (n : ℕ) (f : Option D) (m : Mallocs) (fresh : Ptr)
        → fresh ≢ null
        → h fresh ≡ none
        → Simulates
            (append_node b (last_address is.cells null) key v n f m fresh h)
            (append_entry d key v n f m)
    append-Simulates key v n f m fresh real unused = elim (Bool-cases m.node) [
      | inl node_ok ↦ elim (Bool-cases (m.key && m.value)) [
        | inl both_ok ↦
            rw (append_node, append_entry, node_ok, both_ok)
              (link-Simulates (new_entry key v n f) fresh real unused)
        | inr lost ↦
            rw (append_node, append_entry, node_ok, lost)
              (returns (record {
                cells = is.cells;
                chain = frame-write fresh _ is.chain (has-unused fresh is.chain unused);
                same = is.same;
                counted = is.counted;
              }))
      ]
      | inr no_node ↦ rw (append_node, append_entry, no_node) faults
    ]

    nothing_found :
        (key : Str) {x : DictEntry V D} → is.cells ≡ [] → find_entry key d.first ≢ some x
    unfolding find_entry
    nothing_found key empty hit = cc (rw (← is.same, empty) at hit)

    pub set_node-Simulates :
        {fuel : ℕ} (key : Str) (v : V) (n : ℕ) (f : Option D) (m : Mallocs) (fresh : Ptr)
        → length d.first < fuel
        → fresh ≢ null
        → h fresh ≡ none
        → Simulates (set_node fuel b key v n f m fresh h) (dict_set_element_s d key v n f m)
    unfolding set_node
    set_node-Simulates {fuel} key v n f m fresh enough real unused =
        let looked = find_node-last fuel key null is.chain (cells-fuel enough) in
        elim (Option-cases (find_entry key d.first)) [
          | inl new ↦
              rw
                (
                  looked,
                  last_hit-absent key is.cells (rw (← is.same) at new),
                  set-absent d key v n f m new,
                )
                (append-Simulates key v n f m fresh real unused)
          | inr (x, hit) ↦ elim (List-last_cases is.cells) [
            | inl empty ↦ absurd (nothing_found key empty hit)
            | inr (ys, (l, e), split) ↦
                rw
                  (
                    looked,
                    last_hit-present key is.chain (rw (← is.same) at hit),
                    set-present d key v n f m (entries ys) e (split-entries ys l e split) hit,
                    split,
                    last_address-concat,
                  )
                  (overwrite-Simulates v n m ys l e split)
          ]
        ]
