-- ===== src/Tests/Nodes.antt =====
-- A dictionary in memory: an address that is freed and given again, a failed allocation, and every
-- operation.
use netdisk4tc.Base.{
  ℕ, ◌+◌, ◌≡◌, refl, true, false, Bool, Option, none, some, List, [], ◌∷◌, arith, Str, codes,
  eq_str, Run, ok,
}
use netdisk4tc.Dictionary.{
  dict_ok, dict_miss, dict_fatal, Mallocs, all_succeed, free_key, free_value, free_node,
  dict_initialize,
}
use netdisk4tc.Dictionary.Nodes.{
  null, Block, Heap, set_node, remove_node, traverse_nodes, destroy_nodes,
}
use netdisk4tc.Dictionary.Nodes.Readers.{get_node, copy_node, node_exists, node_size}
use netdisk4tc.Dictionary.Nodes.Calls.{
  Call, set, get, copy, exists, size, traverse, remove, Allocates, run_nodes, run_list, changed,
  value, copied, flag, bytes, traversed,
}
use netdisk4tc.Dictionary.Nodes.Runs.{run_nodes-run_list}

abbrev host : Str
host = codes "H"

abbrev agent : Str
agent = codes "A"

abbrev date : Str
date = codes "D"

abbrev no_value : Mallocs
no_value = record { node = true; key = true; value = false }

abbrev count : Str → Option ℕ → ℕ → ℕ → Run (Bool × ℕ)
count _ _ _ n = ok (true, n + 1)

-- `host` is set again, which changes `agent`; `date` gets the address that `host` had.
abbrev calls : List (Call ℕ (Unit {0}) ℕ)
calls =
    set host 1 4 none all_succeed 8
    ∷ set agent 2 4 none all_succeed 24
    ∷ set host 3 4 none all_succeed 16
    ∷ remove host
    ∷ set date 5 4 none no_value 32
    ∷ set date 5 4 none all_succeed 8
    ∷ get agent none
    ∷ copy agent true
    ∷ exists host
    ∷ size date
    ∷ traverse count 0
    ∷ remove host
    ∷ []

abbrev empty_block : Block
empty_block = record { first = null; length = 0 }

abbrev empty_heap : Heap ℕ (Unit {0})
empty_heap _ = none

calls-run :
    run_nodes empty_block empty_heap calls
    ≡ ok (
      changed dict_ok []
          ∷ changed dict_ok []
          ∷ changed dict_ok (free_value (some 2) ∷ [])
          ∷ changed dict_ok (free_key host ∷ free_value (some 1) ∷ free_node host ∷ [])
          ∷ changed dict_fatal []
          ∷ changed dict_ok []
          ∷ value (dict_ok, some 3)
          ∷ copied (some 3)
          ∷ flag false
          ∷ bytes 4
          ∷ traversed 2
          ∷ changed dict_miss []
          ∷ [],
      free_key agent ∷ free_value (some 3) ∷ free_key date ∷ free_value (some 5) ∷ [],
    )
unfolding run_nodes eq_str set_node remove_node get_node copy_node node_exists node_size
    traverse_nodes destroy_nodes
calls-run = refl

calls-Allocates : Allocates empty_block empty_heap calls
unfolding eq_str set_node remove_node get_node copy_node node_exists node_size traverse_nodes
    destroy_nodes
calls-Allocates = (
  (omega arith, refl),
  (
    (omega arith, refl),
    (
      (omega arith, refl),
      (tt, ((omega arith, refl), ((omega arith, refl), (tt, (tt, (tt, (tt, (tt, (tt, tt))))))))),
    ),
  ),
)

run_nodes-run_list_example : run_nodes empty_block empty_heap calls ≡ run_list dict_initialize calls
run_nodes-run_list_example = run_nodes-run_list calls calls-Allocates
