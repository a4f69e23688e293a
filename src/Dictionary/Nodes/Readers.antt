-- ===== src/Dictionary/Nodes/Readers.antt =====
-- The readers of netdisk4tc/dictionary.c on memory. Each has the loop of `dict_get_element_s`.
use netdisk4tc.Base.{
  ℕ, ◌<◌, ◌≡◌, Bool, true, false, Option, none, some, length, arith, if◌then◌else◌, Str, Run, ok,
  ◌>>=◌, deref,
}
use netdisk4tc.Dictionary.{
  Status, dict_ok, dict_miss, Dictionary, find_entry, dict_get_element_s, dict_get_element,
  dict_exists, dict_get_element_size,
}
use netdisk4tc.Dictionary.Nodes.{Block, Heap, read_node}
use netdisk4tc.Dictionary.Nodes.Reading.{read_node-find_entry}
use netdisk4tc.Dictionary.Nodes.Refine.{Represents, cells-fuel}

module _ {V D : Type 0} where
  unfoldable pub get_node : ℕ → Block → Str → Option V → Heap V D → Run (Status × Option V)
  unfolding read_node
  get_node fuel b key old h = do
    e ← read_node fuel key b.first h
    elim e [ none ↦ ok (dict_miss, old) | some e ↦ ok (dict_ok, e.value) ]

  unfoldable pub copy_node : ℕ → Block → Str → Bool → Heap V D → Run (Option V)
  unfolding read_node
  copy_node fuel b key alloc h = do
    e ← read_node fuel key b.first h
    elim e [
      | none ↦ ok none
      | some e ↦ if alloc then (do v ← deref e.value; ok (some v)) else ok none
    ]

  unfoldable pub node_exists : ℕ → Block → Str → Heap V D → Run Bool
  unfolding read_node
  node_exists fuel b key h = do
    e ← read_node fuel key b.first h
    elim e [ none ↦ ok false | some _ ↦ ok true ]

  unfoldable pub node_size : ℕ → Block → Str → Heap V D → Run ℕ
  unfolding read_node
  node_size fuel b key h = do
    e ← read_node fuel key b.first h
    elim e [ none ↦ ok 0 | some e ↦ ok e.size ]

  module _ {h : Heap V D} {b : Block} {d : Dictionary V D} (is : Represents h b d) (fuel : ℕ)
      (enough : length d.first < fuel) (key : Str) where
    read_node-first : read_node fuel key b.first h ≡ ok (find_entry key d.first)
    read_node-first = rw (read_node-find_entry fuel key is.chain (cells-fuel is enough), is.same)

    pub get_node_lem :
        (old : Option V) → get_node fuel b key old h ≡ ok (dict_get_element_s d key old)
    unfolding get_node dict_get_element_s
    get_node_lem old = rw read_node-first (ground arith)

    pub copy_node_lem : (alloc : Bool) → copy_node fuel b key alloc h ≡ dict_get_element d key alloc
    unfolding copy_node dict_get_element
    copy_node_lem alloc = rw read_node-first

    pub node_exists_lem : node_exists fuel b key h ≡ ok (dict_exists d key)
    unfolding node_exists dict_exists
    node_exists_lem = rw read_node-first (ground arith)

    pub node_size_lem : node_size fuel b key h ≡ ok (dict_get_element_size d key)
    unfolding node_size dict_get_element_size
    node_size_lem = rw read_node-first (ground arith)
