-- ===== src/Dictionary/Nodes.antt =====
-- The operations of netdisk4tc/dictionary.c on memory: the entries are nodes at addresses, and each
-- loop follows the `next` pointers. `Dictionary` has the same operations over the chain as a list;
-- Nodes.Refine relates the two. Loops run on fuel and are given more rounds than there are entries.
pub mod Seg
pub mod Reading
pub mod Setting
pub mod Removing
pub mod Calls
pub mod Readers
pub mod Refine
pub mod Runs
use netdisk4tc.Base.{
  ℕ, zero, suc, ◌+◌, ◌-◌, Bool, true, false, ◌&&◌, Option, none, some, List, [], ◌∷◌, if◌then◌else◌,
  ◌==◌, Str, eq_str, Run, ok, fault, ◌>>=◌, ◌>>◌, expect, deref,
}
use netdisk4tc.Dictionary.{
  Status, dict_ok, dict_fatal, dict_miss, DictEntry, Release, free_key, free_node, Mallocs,
  release_value,
}

abbrev pub Ptr : Type 0
Ptr = ℕ

abbrev pub null : Ptr
null = 0

-- A `DictEntry` in memory.
pub record Node (V D : Type 0) : Type 0 where
  pub entry : DictEntry V D
  pub next : Ptr

-- The `Dictionary` structure.
pub record Block : Type 0 where
  pub first : Ptr
  pub length : ℕ

abbrev pub Heap : Type 0 → Type 0 → Type 0
Heap V D = Ptr → Option (Node V D)

-- What a call that changes the dictionary returns: the status, the structure, what is released, and
-- the memory.
abbrev pub Changed : Type 0 → Type 0 → Type 0
Changed V D = Status × Block × List (Release V D) × Heap V D

module _ {V D : Type 0} where
  abbrev pub node : DictEntry V D → Ptr → Node V D
  node e q = record { entry = e; next = q }

  unfoldable pub write : Heap V D → Ptr → Option (Node V D) → Heap V D
  write h p c a = if a == p then c else h a

  -- `*p`: a fault at `NULL` and where no node lies.
  unfoldable pub load : Ptr → Heap V D → Run (Node V D)
  load p h = if p == null then fault else deref (h p)

  -- The loop of `dict_set_element_s`: `(node, iter)` behind it.
  unfoldable pub find_node : ℕ → Str → (iter node : Ptr) → Heap V D → Run (Ptr × Ptr)
  unfolding load
  find_node zero key iter hit h = fault
  find_node (suc fuel) key iter hit h = elim (iter == null) [
    | true ↦ ok (hit, iter)
    | false ↦ (do
      n ← load iter h
      let hit' = if eq_str key n.entry.key then iter else hit
      elim (n.next == null) [ true ↦ ok (hit', iter) | false ↦ find_node fuel key n.next hit' h ])
  ]

  -- The branch `node != NULL`.
  abbrev pub overwrite_node : Block → Ptr → V → ℕ → Mallocs → Heap V D → Run (Changed V D)
  overwrite_node b iter v size m h = do
    n ← load iter h
    if m.value
        then ok (
          dict_ok,
          b,
          release_value n.entry ∷ [],
          write h iter (some (node (record n.entry { value = some v; size = size }) n.next)),
        )
        else ok (
          dict_fatal,
          b,
          release_value n.entry ∷ [],
          write h iter (some (node (record n.entry { value = none }) n.next)),
        )

  -- The new node goes behind `iter`, or to `first`.
  abbrev pub link_node : Block → Ptr → Ptr → Heap V D → Run (Changed V D)
  link_node b iter fresh h =
      if iter == null
      then ok (dict_ok, record { first = fresh; length = b.length + 1 }, [], h)
      else (do
        n ← load iter h
        ok (
          dict_ok,
          record b { length = b.length + 1 },
          [],
          write h iter (some (node n.entry fresh)),
        ))

  -- A node that is cleared and has its key at most.
  abbrev pub blank : Str → DictEntry V D
  blank key = record { key = key; size = 0; value = none; destroyer = none }

  -- The branch `node == NULL`. `fresh` is what `malloc` gives for the node, which stays allocated
  -- where a later allocation fails.
  abbrev pub append_node :
      Block → Ptr → Str → V → ℕ → Option D → Mallocs → Ptr → Heap V D → Run (Changed V D)
  append_node b iter key v size destroyer m fresh h = do
    expect m.node
    if m.key && m.value
        then link_node b iter fresh (
            write h fresh (
              some (
                node (record { key = key; size = size; value = some v; destroyer = destroyer })
                  null)))
        else ok (
          dict_fatal,
          b,
          [],
          write h fresh (some (node (blank (if m.key then key else [])) null)),
        )

  unfoldable pub set_node :
      ℕ → Block → Str → V → ℕ → Option D → Mallocs → Ptr → Heap V D → Run (Changed V D)
  unfolding find_node write load
  set_node fuel b key v size destroyer m fresh h = do
    (hit, iter) ← find_node fuel key b.first null h
    if hit == null
        then append_node b iter key v size destroyer m fresh h
        else overwrite_node b iter v size m h

  -- The loop of the readers: the first entry with the key.
  unfoldable pub read_node : ℕ → Str → Ptr → Heap V D → Run (Option (DictEntry V D))
  unfolding load
  read_node zero key iter h = fault
  read_node (suc fuel) key iter h = elim (iter == null) [
    | true ↦ ok none
    | false ↦ (do
      n ← load iter h
      elim (eq_str key n.entry.key) [
        | true ↦ ok (some n.entry)
        | false ↦ read_node fuel key n.next h
      ])
  ]

  -- The loop of `dict_remove_element`: `hit`, `first` and the memory behind it.
  unfoldable pub unlink_node : ℕ → Str → (first iter : Ptr) → Heap V D → Run (Ptr × Ptr × Heap V D)
  unfolding load write
  unlink_node zero key first iter h = fault
  unlink_node (suc fuel) key first iter h = elim (iter == null) [
    | true ↦ ok (null, first, h)
    | false ↦ (do
      n ← load iter h
      elim (first == iter && eq_str key n.entry.key) [
        | true ↦ ok (iter, n.next, h)
        | false ↦ elim (n.next == null) [
          | true ↦ unlink_node fuel key first n.next h
          | false ↦ (do
            m ← load n.next h
            elim (eq_str key m.entry.key) [
              | true ↦ ok (n.next, first, write h iter (some (node n.entry m.next)))
              | false ↦ unlink_node fuel key first n.next h
            ])
        ]
      ])
  ]

  unfoldable pub remove_node : ℕ → Block → Str → Heap V D → Run (Changed V D)
  unfolding unlink_node load write
  remove_node fuel b key h = do
    (hit, first, h') ← unlink_node fuel key b.first b.first h
    if hit == null then ok (dict_miss, record b { first = first }, [], h') else (do
      n ← load hit h'
      ok (
        dict_ok,
        record { first = first; length = b.length - 1 },
        free_key n.entry.key ∷ release_value n.entry ∷ free_node n.entry.key ∷ [],
        write h' hit none,
      ))

  unfoldable pub traverse_nodes {ℓ} :
      {S : Type ℓ} → ℕ → Ptr → Heap V D → (Str → Option V → ℕ → S → Run (Bool × S)) → S → Run S
  unfolding load
  traverse_nodes zero iter h enumerator s = fault
  traverse_nodes (suc fuel) iter h enumerator s = elim (iter == null) [
    | true ↦ ok s
    | false ↦ (do
      n ← load iter h
      (goes_on, s') ← enumerator n.entry.key n.entry.value n.entry.size s
      elim goes_on [ true ↦ traverse_nodes fuel n.next h enumerator s' | false ↦ ok s' ])
  ]

  -- The loop of `dict_destroy`. No node is freed.
  unfoldable pub destroy_nodes : ℕ → Ptr → Heap V D → Run (List (Release V D))
  unfolding load
  destroy_nodes zero iter h = fault
  destroy_nodes (suc fuel) iter h = elim (iter == null) [
    | true ↦ ok []
    | false ↦ (do
      n ← load iter h
      rest ← destroy_nodes fuel n.next h
      ok (free_key n.entry.key ∷ release_value n.entry ∷ rest))
  ]
