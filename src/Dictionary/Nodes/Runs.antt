-- ===== src/Dictionary/Nodes/Runs.antt =====
-- Whole runs of calls on one dictionary: memory against the list.
use mathlib.Core.Path.{subst}
use netdisk4tc.Base.{
  ◌<◌, ◌≡◌, refl, ap, none, List, [], ◌∷◌, arith, length, Str, Run, ok, fault, ◌>>=◌,
}
use netdisk4tc.Dictionary.{
  Status, Dictionary, Release, dict_initialize, dict_get_element_s, dict_get_element, dict_exists,
  dict_get_element_size, dict_remove_element, dict_traverse, dict_destroy,
}
use netdisk4tc.Dictionary.Invariant.{
  IsDictionary, dict_initialize-IsDictionary, dict_set_element_s-IsDictionary,
}
use netdisk4tc.Dictionary.Remove.{dict_remove_element_lem}
use netdisk4tc.Dictionary.Nodes.{null, Block, Heap, Changed}
use netdisk4tc.Dictionary.Nodes.Readers.{
  get_node_lem, copy_node_lem, node_exists_lem, node_size_lem,
}
use netdisk4tc.Dictionary.Nodes.Reading.{traverse_nodes-traverse_loop, destroy_nodes-destroy_loop}
use netdisk4tc.Dictionary.Nodes.Seg.{nil}
use netdisk4tc.Dictionary.Nodes.Refine.{
  Represents, Simulates, faults, returns, cells-fuel, set_node-Simulates, remove_node-Simulates,
}
use netdisk4tc.Dictionary.Nodes.Calls.{
  Call, set, get, copy, exists, size, traverse, remove, Answer, changed, value, copied, flag, bytes,
  traversed, rounds, call_list, call_nodes, answered, run_list, run_nodes, IsFresh, Allocates,
}

module _ {V D : Type 0} where
  abbrev changed_dictionary :
      Run (Status × Dictionary V D × List (Release V D)) → Dictionary V D → Dictionary V D
  changed_dictionary fault d = d
  changed_dictionary (ok (_, d, _)) _ = d

  module _ {b : Block} {h : Heap V D} {d : Dictionary V D} (is : Represents h b d)
      (well : IsDictionary d) where
    enough_rounds : length d.first < rounds b
    enough_rounds = omega (arith, is.counted, well.counted)

  remove-IsDictionary :
      (d : Dictionary V D) (key : Str) {st : Status} {d' : Dictionary V D}
      {out : List (Release V D)}
      → IsDictionary d
      → ok (dict_remove_element d key) ≡ ok (st, d', out)
      → IsDictionary d'
  remove-IsDictionary d key well e =
      subst IsDictionary (ap (λ r. changed_dictionary r d) e)
        (dict_remove_element_lem d key [] none well).2

module _ {V D S : Type 0} where
  -- One call on both sides.
  data Agrees
      : Run (Answer V D S × Block × Heap V D) → Run (Answer V D S × Dictionary V D) → Type 0 where
    both_fault : Agrees fault fault
    both_return :
        {b : Block} {h : Heap V D} {d : Dictionary V D} (a : Answer V D S)
        → Represents h b d
        → IsDictionary d
        → Agrees (ok (a, b, h)) (ok (a, d))

  of_Simulates :
      {r : Run (Changed V D)} {s : Run (Status × Dictionary V D × List (Release V D))}
      → Simulates r s
      → ((st : Status) (d : Dictionary V D) (out : List (Release V D))
          → s ≡ ok (st, d, out)
          → IsDictionary d)
      → Agrees
          (do (st, b, out, h) ← r; ok (changed st out, b, h))
          (do (st, d, out) ← s; ok (changed st out, d))
  of_Simulates faults keeps = both_fault
  of_Simulates (returns {d} {st} {out} is) keeps =
      both_return (changed st out) is (keeps st d out refl)

  module _ {b : Block} {h : Heap V D} {d : Dictionary V D} (is : Represents h b d)
      (well : IsDictionary d) where
    read-Agrees :
        {A : Type 0} (answer : A → Answer V D S) (r : Run A)
        → Agrees (r >>= λ (x : A). ok (answer x, b, h)) (r >>= λ (x : A). ok (answer x, d))
    read-Agrees answer fault = both_fault
    read-Agrees answer (ok x) = both_return (answer x) is well

    call-Agrees : (c : Call V D S) → IsFresh h c → Agrees (call_nodes b h c) (call_list d c)
    unfolding dict_traverse
    call-Agrees (set key v n f m fresh) (real, unused) =
        of_Simulates (set_node-Simulates is key v n f m fresh (enough_rounds is well) real unused)
          λ st d' out e. dict_set_element_s-IsDictionary d key v n f m e well
    call-Agrees (remove key) _ =
        of_Simulates (remove_node-Simulates is key (enough_rounds is well))
          λ st d' out e. remove-IsDictionary d key well e
    call-Agrees (get key old) _ =
        rw (get_node_lem is (rounds b) (enough_rounds is well) key old)
          (both_return (value (dict_get_element_s d key old)) is well)
    call-Agrees (copy key alloc) _ =
        rw (copy_node_lem is (rounds b) (enough_rounds is well) key alloc)
          (read-Agrees copied (dict_get_element d key alloc))
    call-Agrees (exists key) _ =
        rw (node_exists_lem is (rounds b) (enough_rounds is well) key)
          (both_return (flag (dict_exists d key)) is well)
    call-Agrees (size key) _ =
        rw (node_size_lem is (rounds b) (enough_rounds is well) key)
          (both_return (bytes (dict_get_element_size d key)) is well)
    call-Agrees (traverse f t) _ =
        rw
          (
            traverse_nodes-traverse_loop f (rounds b) t is.chain
                (cells-fuel is (enough_rounds is well)),
            is.same,
          )
          (read-Agrees traversed (dict_traverse d f t))

  steps :
      (cs : List (Call V D S)) {r : Run (Answer V D S × Block × Heap V D)}
      {s : Run (Answer V D S × Dictionary V D)}
      → Agrees r s
      → (elim r as (λ _. Type 0) [ fault ↦ Unit | ok (_, b, h) ↦ Allocates b h cs ])
      → ((b : Block) (h : Heap V D) (d : Dictionary V D)
          → Represents h b d
          → IsDictionary d
          → Allocates b h cs
          → run_nodes b h cs ≡ run_list d cs)
      → (r >>= λ (x : Answer V D S × Block × Heap V D). answered x.0 (run_nodes x.1 x.2 cs))
        ≡ (s >>= λ (x : Answer V D S × Dictionary V D). answered x.0 (run_list x.1 cs))
  steps cs both_fault _ rest = refl
  steps cs (both_return a is well) later rest = rw (rest _ _ _ is well later)

  run_nodes-list :
      (cs : List (Call V D S)) {b : Block} {h : Heap V D} {d : Dictionary V D}
      → Represents h b d
      → IsDictionary d
      → Allocates b h cs
      → run_nodes b h cs ≡ run_list d cs
  unfolding run_nodes run_list dict_destroy
  run_nodes-list [] {b} is well _ = rw (
    destroy_nodes-destroy_loop (rounds b) is.chain (cells-fuel is (enough_rounds is well)),
    is.same,
  )
  run_nodes-list (c ∷ cs) {b} {h} {d} is well (fresh, later) =
      steps cs (call-Agrees is well c fresh) later λ b' h' d' is' well'. run_nodes-list cs is' well'

  -- Any sequence of the calls of the dictionary on a new one, each with its allocations failing or
  -- not and its node at whatever unused address the allocator gives, and `dict_destroy` at the end:
  -- following the pointers in memory faults where the operations on the list fault, and otherwise
  -- gives the same answer to each call and the same releases.
  pub run_nodes-run_list :
      (cs : List (Call V D S))
      → Allocates (record { first = null; length = 0 }) (λ _. none) cs
      → run_nodes (record { first = null; length = 0 }) (λ _. none) cs ≡ run_list dict_initialize cs
  unfolding dict_initialize
  run_nodes-run_list cs =
      run_nodes-list cs (record { cells = []; chain = nil; same = refl; counted = refl })
        dict_initialize-IsDictionary
