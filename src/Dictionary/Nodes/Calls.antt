-- ===== src/Dictionary/Nodes/Calls.antt =====
-- The calls that a client makes on one dictionary, and their runs on memory and on the list.

use netdisk4tc.Base.{
  ℕ, Bool, suc, ◌≡◌, ◌≢◌, Option, none, List, [], ◌∷◌, Str, Run, ok, fault, ◌>>=◌,
}
use netdisk4tc.Dictionary.{
  Status, Dictionary, Release, Mallocs, dict_set_element_s, dict_get_element_s, dict_get_element,
  dict_exists, dict_get_element_size, dict_remove_element, dict_traverse, dict_destroy,
}
use netdisk4tc.Dictionary.Nodes.{
  Ptr, null, Block, Heap, set_node, remove_node, traverse_nodes, destroy_nodes,
}
use netdisk4tc.Dictionary.Nodes.Readers.{get_node, copy_node, node_exists, node_size}

-- A call of a client. `set` has what the allocator does: which of its calls succeed, and the address
-- of the node.
pub data Call (V D S : Type 0) : Type 0 where
  set : Str → V → ℕ → Option D → Mallocs → Ptr → Call V D S
  get : Str → Option V → Call V D S
  copy : Str → Bool → Call V D S
  exists size : Str → Call V D S
  traverse : (Str → Option V → ℕ → S → Run (Bool × S)) → S → Call V D S
  remove : Str → Call V D S

-- What the client sees of a call.
pub data Answer (V D S : Type 0) : Type 0 where
  changed : Status → List (Release V D) → Answer V D S
  value : Status × Option V → Answer V D S
  copied : Option V → Answer V D S
  flag : Bool → Answer V D S
  bytes : ℕ → Answer V D S
  traversed : S → Answer V D S

-- The loops are given one round more than there are entries.
abbrev pub rounds : Block → ℕ
rounds b = suc b.length

module _ {V D S : Type 0} where
  abbrev pub call_list : Dictionary V D → Call V D S → Run (Answer V D S × Dictionary V D)
  call_list d (set key v n f m _) = do
    (st, d', out) ← dict_set_element_s d key v n f m
    ok (changed st out, d')
  call_list d (get key old) = ok (value (dict_get_element_s d key old), d)
  call_list d (copy key alloc) = do v ← dict_get_element d key alloc; ok (copied v, d)
  call_list d (exists key) = ok (flag (dict_exists d key), d)
  call_list d (size key) = ok (bytes (dict_get_element_size d key), d)
  call_list d (traverse f t) = do t' ← dict_traverse d f t; ok (traversed t', d)
  call_list d (remove key) =
      let (st, d', out) = dict_remove_element d key in ok (changed st out, d')

  -- An answer before those of later calls.
  abbrev pub answered :
      Answer V D S
      → Run (List (Answer V D S) × List (Release V D))
      → Run (List (Answer V D S) × List (Release V D))
  answered a rest = do (answers, out) ← rest; ok (a ∷ answers, out)

  -- The calls in order, and `dict_destroy` at the end.
  unfoldable pub run_list :
      Dictionary V D → List (Call V D S) → Run (List (Answer V D S) × List (Release V D))
  run_list d [] = ok ([], dict_destroy d)
  run_list d (c ∷ cs) = do (a, d') ← call_list d c; answered a (run_list d' cs)

  abbrev pub call_nodes : Block → Heap V D → Call V D S → Run (Answer V D S × Block × Heap V D)
  call_nodes b h (set key v n f m fresh) = do
    (st, b', out, h') ← set_node (rounds b) b key v n f m fresh h
    ok (changed st out, b', h')
  call_nodes b h (get key old) = do r ← get_node (rounds b) b key old h; ok (value r, b, h)
  call_nodes b h (copy key alloc) = do v ← copy_node (rounds b) b key alloc h; ok (copied v, b, h)
  call_nodes b h (exists key) = do r ← node_exists (rounds b) b key h; ok (flag r, b, h)
  call_nodes b h (size key) = do n ← node_size (rounds b) b key h; ok (bytes n, b, h)
  call_nodes b h (traverse f t) = do
    t' ← traverse_nodes (rounds b) b.first h f t
    ok (traversed t', b, h)
  call_nodes b h (remove key) = do
    (st, b', out, h') ← remove_node (rounds b) b key h
    ok (changed st out, b', h')

  unfoldable pub run_nodes :
      Block → Heap V D → List (Call V D S) → Run (List (Answer V D S) × List (Release V D))
  run_nodes b h [] = do out ← destroy_nodes (rounds b) b.first h; ok ([], out)
  run_nodes b h (c ∷ cs) = do (a, b', h') ← call_nodes b h c; answered a (run_nodes b' h' cs)

  -- The allocator gives an address that is in use to no call. One that was freed may come back.
  abbrev pub IsFresh : Heap V D → Call V D S → Type 0
  IsFresh h (set _ _ _ _ _ fresh) = (fresh ≢ null) × (h fresh ≡ none)
  IsFresh h _ = Unit

  abbrev pub Allocates : Block → Heap V D → List (Call V D S) → Type 0
  Allocates b h [] = Unit
  Allocates b h (c ∷ cs) =
      IsFresh h c × (elim (call_nodes b h c) [ fault ↦ Unit | ok (_, b', h') ↦ Allocates b' h' cs ])
