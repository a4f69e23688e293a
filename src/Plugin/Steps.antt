-- ===== src/Plugin/Steps.antt =====
-- The calls of `fs_find_next_w` along a chain, counted.
use netdisk4tc.Base.{
  ℕ, zero, suc, ◌+◌, ◌≤◌, ◌<◌, ◌≡◌, refl, true, false, Bool-cases, inl, inr, ◌⊎◌, Option, none,
  some, List, [], ◌∷◌, length, get_elem?, take, ltb, arith, Str, eq_str, ok,
}
use netdisk4tc.Utility.Copy.{wcslcpy-take}
use netdisk4tc.Dictionary.{DictEntry}
use netdisk4tc.Disk.{Disk, DiskDestroyer, Disks, root}
use netdisk4tc.Disk.Listing.{FindData, Files}
use netdisk4tc.Plugin.{FindStruc, fs_find_next_w, new_disk, next_handle, root_data, new_disk_data}
use netdisk4tc.Plugin.Delivery.{Delivers, ends, gives}
use netdisk4tc.Plugin.RootListing.{Named}

-- A handle that is at the end of a chain or at an entry of it.
abbrev pub InChain {ℓ} : {A : Type ℓ} → List A → Option ℕ → Type 0
InChain es none = Unit
InChain es (some i) = i < length es

-- Each entry has a value.
abbrev pub Held : {V D : Type 0} → List (DictEntry V D) → Type 0
Held [] = Unit
Held {V = V} (e ∷ es) = ((v : V) × (e.value ≡ some v)) × Held es

next_handle-InChain {ℓ} :
    {A : Type ℓ} (es : List A) (i : ℕ)
    → (next_handle es i ≡ none) ⊎ ((next_handle es i ≡ some (suc i)) × (suc i < length es))
next_handle-InChain es i = elim (Bool-cases (ltb (suc i) (length es))) [
  | inl more ↦ inr (rw (more), ground arith)
  | inr last ↦ inl (rw (last))
]

Held-at :
    {V D : Type 0} (es : List (DictEntry V D)) (i : ℕ)
    → Held es
    → i < length es
    → (e : DictEntry V D) × (v : V) × (get_elem? es i ≡ some e) × (e.value ≡ some v)
Held-at [] i w h = absurd (omega arith)
Held-at (e ∷ es) zero ((v, is), w) h = (e, v, refl, is)
Held-at (e ∷ es) (suc i) (_, w) h = Held-at es i w (omega arith)

Named-at :
    (es : List (DictEntry Disk DiskDestroyer)) (ns : List Str) (i : ℕ)
    → Named es ns
    → i < length es
    → (e : DictEntry Disk DiskDestroyer) × (d : Disk) × (n : Str) × (get_elem? es i ≡ some e)
      × (e.value ≡ some d)
      × (d.nickname ≡ some n)
Named-at [] ns i w h = absurd (omega arith)
Named-at (e ∷ es) [] i w h = absurd w
Named-at (e ∷ es) (n ∷ ns) zero ((d, is, called), w) h = (e, d, n, refl, is, called)
Named-at (e ∷ es) (n ∷ ns) (suc i) (_, w) h = Named-at es ns i w (omega arith)

-- At most a number of entries are delivered.
abbrev pub EndsIn : Disks → Option FindStruc → FindData → ℕ → Type 0
EndsIn disks find old bound =
    (ds : List FindData) × Delivers disks find old ds × (length ds ≤ bound)

module _ (disks : Disks) where
  one_more :
      (find find' : Option FindStruc) (old d : FindData) (bound : ℕ)
      → fs_find_next_w disks find old ≡ ok (true, find', d)
      → EndsIn disks find' d bound
      → EndsIn disks find old (suc bound)
  one_more find find' old d bound step (ds, delivers, few) =
      (d ∷ ds, gives step delivers, omega arith)

  pub root_end-EndsIn :
      (find : FindStruc) (old : FindData) (bound : ℕ)
      → find.is_last ≡ false
      → eq_str find.path root ≡ true
      → find.find_handle ≡ none
      → EndsIn disks (some find) old (suc bound)
  unfolding fs_find_next_w
  root_end-EndsIn find old bound open_ at_root none_left =
      one_more (some find) (some (record find { is_last = true })) old new_disk_data bound
        (rw (open_, at_root, none_left, wcslcpy-take 260 new_disk 259 (omega arith) (omega arith)))
        ([], ends refl, omega arith)

  root_step :
      (find : FindStruc) (old : FindData) (i : ℕ) (e : DictEntry Disk DiskDestroyer) (d : Disk)
      (n : Str)
      → find.is_last ≡ false
      → eq_str find.path root ≡ true
      → find.find_handle ≡ some i
      → get_elem? disks.first i ≡ some e
      → e.value ≡ some d
      → d.nickname ≡ some n
      → fs_find_next_w disks (some find) old
        ≡ ok (
          true,
          some (record find { find_handle = next_handle disks.first i }),
          root_data (take 258 n),
        )
  unfolding fs_find_next_w
  root_step find old i e d n open_ at_root at here value called =
      rw (
        open_,
        at_root,
        at,
        here,
        value,
        called,
        wcslcpy-take 260 n 259 (omega arith) (omega arith),
      )

  pub root_entry-EndsIn :
      (ns : List Str) (k : ℕ) (find : FindStruc) (old : FindData) (i : ℕ)
      → Named disks.first ns
      → find.is_last ≡ false
      → eq_str find.path root ≡ true
      → find.find_handle ≡ some i
      → i < length disks.first
      → length disks.first ≤ i + k
      → EndsIn disks (some find) old (suc k)
  root_entry-EndsIn ns zero find old i named open_ at_root at inside left = absurd (omega arith)
  root_entry-EndsIn ns (suc k) find old i named open_ at_root at inside left =
      let (e, d, n, here, value, called) = Named-at disks.first ns i named inside in
      let find' : FindStruc = record find { find_handle = next_handle disks.first i } in
      one_more (some find) (some find') old (root_data (take 258 n)) (suc k)
        (root_step find old i e d n open_ at_root at here value called)
        (elim (next_handle-InChain disks.first i) [
          | inl end ↦ root_end-EndsIn find' (root_data (take 258 n)) k open_ at_root end
          | inr (more, within) ↦
              root_entry-EndsIn ns k find' (root_data (take 258 n)) (suc i) named open_ at_root more
                within (omega arith)
        ])

  pub file_end-EndsIn :
      (find : FindStruc) (old : FindData) (bound : ℕ)
      → find.is_last ≡ false
      → eq_str find.path root ≡ false
      → find.find_handle ≡ none
      → EndsIn disks (some find) old bound
  unfolding fs_find_next_w
  file_end-EndsIn find old bound open_ no_root none_left =
      ([], ends (rw (open_, no_root, none_left)), omega arith)

  file_step :
      (files : Files) (find : FindStruc) (old : FindData) (i : ℕ)
      (e : DictEntry FindData (Unit {0})) (v : FindData)
      → find.dict ≡ some files
      → find.is_last ≡ false
      → eq_str find.path root ≡ false
      → find.find_handle ≡ some i
      → get_elem? files.first i ≡ some e
      → e.value ≡ some v
      → fs_find_next_w disks (some find) old
        ≡ ok (
          true,
          some (record find { find_handle = next_handle files.first i }),
          record v { file_name = take 258 v.file_name },
        )
  unfolding fs_find_next_w
  file_step files find old i e v is open_ no_root at here value = rw (
    open_,
    no_root,
    at,
    is,
    here,
    value,
    wcslcpy-take 260 v.file_name 259 (omega arith) (omega arith),
  )

  pub file_entry-EndsIn :
      (files : Files) (k : ℕ) (find : FindStruc) (old : FindData) (i : ℕ)
      → Held files.first
      → find.dict ≡ some files
      → find.is_last ≡ false
      → eq_str find.path root ≡ false
      → find.find_handle ≡ some i
      → i < length files.first
      → length files.first ≤ i + k
      → EndsIn disks (some find) old k
  file_entry-EndsIn files zero find old i held is open_ no_root at inside left =
      absurd (omega arith)
  file_entry-EndsIn files (suc k) find old i held is open_ no_root at inside left =
      let (e, v, here, value) = Held-at files.first i held inside in
      let find' : FindStruc = record find { find_handle = next_handle files.first i } in
      let d : FindData = record v { file_name = take 258 v.file_name } in
      one_more (some find) (some find') old d k
        (file_step files find old i e v is open_ no_root at here value)
        (elim (next_handle-InChain files.first i) [
          | inl end ↦ file_end-EndsIn find' d k open_ no_root end
          | inr (more, within) ↦
              file_entry-EndsIn files k find' d (suc i) held is open_ no_root more within
                (omega arith)
        ])
