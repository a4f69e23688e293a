-- ===== src/Plugin/RootListing.antt =====
-- The listing of the root: `fs_find_first_w` and the calls of `fs_find_next_w`.
use netdisk4tc.Base.{
  ℕ, ◌≡◌, refl, sym, ◌∙◌, true, false, Option, none, some, List, [], ◌∷◌, ◌++◌, length,
  get_elem?-concat, append_assoc, take, arith, Str, codes, ok, eq_str,
}
use netdisk4tc.Utility.{wcslcpy, SystemTime}
use netdisk4tc.Utility.Copy.{wcslcpy-take}
use netdisk4tc.Dictionary.{DictEntry}
use netdisk4tc.Disk.{DiskEntry, Disk, DiskDestroyer, Disks, root, path_max}
use netdisk4tc.Disk.Listing.{FindData, Script}
use netdisk4tc.Plugin.{
  FindStruc, fs_find_first_w, fs_find_next_w, dots, new_disk, root_data, new_disk_data,
  first_handle,
}
use netdisk4tc.Plugin.Delivery.{Delivers, ends, gives, handle_at, first_handle-eq, next_handle-eq}

-- The nicknames of the disks of a chain.
abbrev pub Named : List (DictEntry Disk DiskDestroyer) → List Str → Type 0
Named [] [] = Unit
Named [] (_ ∷ _) = ⊥
Named (_ ∷ _) [] = ⊥
Named (e ∷ es) (n ∷ ns) = ((d : Disk) × (e.value ≡ some d) × (d.nickname ≡ some n)) × Named es ns

-- What the root lists: the disks under their nicknames, cut off at 258 characters, and the entry
-- that adds a disk.
abbrev pub root_listing : List Str → List FindData
root_listing [] = new_disk_data ∷ []
root_listing (n ∷ ns) = root_data (take 258 n) ∷ root_listing ns

-- A search of the root with a handle.
abbrev pub root_find : Option ℕ → FindStruc
root_find h = record {
  disk = none;
  entry = none;
  s_path = [];
  path = root;
  dict = none;
  find_handle = h;
  is_last = false;
}

next-disk :
    (disks : Disks) (pre es : List (DictEntry Disk DiskDestroyer))
    (e : DictEntry Disk DiskDestroyer) (d : Disk) (n : Str) (old : FindData)
    → disks.first ≡ pre ++ (e ∷ es)
    → e.value ≡ some d
    → d.nickname ≡ some n
    → fs_find_next_w disks (some (root_find (some (length pre)))) old
      ≡ ok
          (true, some (root_find (handle_at (length (pre ++ (e ∷ []))) es)), root_data (take 258 n))
unfolding fs_find_next_w eq_str
next-disk disks pre es e d n old chain h h' = rw (
  chain,
  next_handle-eq pre e es,
  get_elem?-concat pre es e,
  h,
  h',
  wcslcpy-take 260 n 259 (omega arith) (omega arith),
)

root-Delivers :
    (disks : Disks) (pre es : List (DictEntry Disk DiskDestroyer)) (ns : List Str) (old : FindData)
    → disks.first ≡ pre ++ es
    → Named es ns
    → Delivers disks (some (root_find (handle_at (length pre) es))) old (root_listing ns)
unfolding fs_find_next_w wcslcpy eq_str
root-Delivers disks pre [] [] old chain w =
    gives {h' = some (record (root_find none) { is_last = true })}
      (rw (wcslcpy-take 260 new_disk 259 (omega arith) (omega arith))) (ends refl)
root-Delivers disks pre (e ∷ es) (n ∷ ns) old chain ((d, h, h'), w) =
    gives (next-disk disks pre es e d n old chain h h') (
      root-Delivers disks (pre ++ (e ∷ [])) es ns (root_data (take 258 n))
        (chain ∙ sym (append_assoc pre (e ∷ []) es)) w)
root-Delivers disks pre [] (_ ∷ _) old chain w = absurd w
root-Delivers disks pre (_ ∷ _) [] old chain w = absurd w

-- Where each entry of the dictionary has a disk with a nickname, opening the root succeeds; the
-- first entry is `..`, and the calls that follow deliver the nicknames, each cut off at 258
-- characters, in the order of the disks, then the entry that adds a disk, and then end.
pub fs_find_next_w-root :
    (ctow wtoc : Str → Str) (file_time : SystemTime → Option ℕ) (kinds : List DiskEntry)
    (disks : Disks) (scripts : Str → Script) (ns : List Str)
    → Named disks.first ns
    → (find : FindStruc) × (fs_find_first_w ctow wtoc file_time kinds disks scripts root
        ≡ ok (some (find, dots)))
      × Delivers disks (some find) dots (root_listing ns)
unfolding fs_find_first_w wcslcpy eq_str
fs_find_next_w-root ctow wtoc file_time kinds disks scripts ns named = (
  root_find (first_handle disks.first),
  rw (
    wcslcpy-take path_max root path_max (omega arith) (omega arith),
    wcslcpy-take 260 (codes "..") 259 (omega arith) (omega arith),
  ),
  rw (first_handle-eq disks.first) (root-Delivers disks [] disks.first ns dots refl named),
)
