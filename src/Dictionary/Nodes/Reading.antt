-- ===== src/Dictionary/Nodes/Reading.antt =====
-- The loops that only read the chain: on memory they give what they give on the list.
use netdisk4tc.Base.{
  ℕ, zero, suc, ◌<◌, ◌≡◌, refl, inl, inr, Bool, true, false, Option, arith, if◌then◌else◌, length,
  Bool-cases, Str, eq_str, Run, ok, fault, ◌>>=◌,
}
use netdisk4tc.Dictionary.{find_entry, traverse_loop, destroy_loop}
use netdisk4tc.Dictionary.Nodes.{Ptr, Heap, read_node, traverse_nodes, destroy_nodes}
use netdisk4tc.Dictionary.Nodes.Seg.{Cells, entries, Seg, nil, cons, not_null, load-ok}

-- The rest of a round, where both loops go on alike.
after {ℓ} :
    {S : Type ℓ} {rounds loop : S → Run S} (r : Run (Bool × S))
    → ((t : S) → rounds t ≡ loop t)
    → (do (goes_on, t) ← r; elim goes_on [ true ↦ rounds t | false ↦ ok t ])
      ≡ (do (goes_on, t) ← r; if goes_on then loop t else ok t)
after fault same = refl
after (ok (true, t)) same = same t
after (ok (false, t)) same = refl

module _ {V D : Type 0} {h : Heap V D} where
  pub read_node-find_entry :
      (fuel : ℕ) (key : Str) {p : Ptr} {xs : Cells V D}
      → Seg h p xs
      → length xs < fuel
      → read_node fuel key p h ≡ ok (find_entry key (entries xs))
  unfolding read_node find_entry
  read_node-find_entry zero key s enough = absurd (omega arith)
  read_node-find_entry (suc fuel) key nil enough = refl
  read_node-find_entry (suc fuel) key (cons {e} at out s) enough =
      rw (read_node, not_null at, load-ok at)
        (elim (Bool-cases (eq_str key e.key)) [
          | inl hit ↦ rw (◌>>=◌, hit)
          | inr miss ↦ rw (◌>>=◌, miss) (read_node-find_entry fuel key s (omega arith))
        ])

  pub destroy_nodes-destroy_loop :
      (fuel : ℕ) {p : Ptr} {xs : Cells V D}
      → Seg h p xs
      → length xs < fuel
      → destroy_nodes fuel p h ≡ ok (destroy_loop (entries xs))
  unfolding destroy_nodes destroy_loop
  destroy_nodes-destroy_loop zero s enough = absurd (omega arith)
  destroy_nodes-destroy_loop (suc fuel) nil enough = refl
  destroy_nodes-destroy_loop (suc fuel) (cons at out s) enough =
      rw (destroy_nodes, not_null at, load-ok at, destroy_nodes-destroy_loop fuel s (omega arith))

  pub traverse_nodes-traverse_loop {ℓ} :
      {S : Type ℓ} (enumerator : Str → Option V → ℕ → S → Run (Bool × S)) (fuel : ℕ) (t : S)
      {p : Ptr} {xs : Cells V D}
      → Seg h p xs
      → length xs < fuel
      → traverse_nodes fuel p h enumerator t ≡ traverse_loop (entries xs) enumerator t
  unfolding traverse_nodes traverse_loop
  traverse_nodes-traverse_loop f zero t s enough = absurd (omega arith)
  traverse_nodes-traverse_loop f (suc fuel) t nil enough = refl
  traverse_nodes-traverse_loop f (suc fuel) t (cons {e} at out s) enough =
      rw (traverse_nodes, not_null at, load-ok at)
        (after (f e.key e.value e.size t)
          λ t'. traverse_nodes-traverse_loop f fuel t' s (omega arith))
