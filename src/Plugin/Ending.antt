-- ===== src/Plugin/Ending.antt =====
-- Every search ends, wherever it stands, also one whose chain has grown since it was opened.
use netdisk4tc.Base.{
  ℕ, suc, ◌+◌, ◌≤◌, ◌≡◌, refl, true, false, inl, inr, ◌⊎◌, Option, none, some, List, length, arith,
  Str, eq_str,
}
use netdisk4tc.Disk.{Disks, root}
use netdisk4tc.Disk.Listing.{FindData, Files}
use netdisk4tc.Plugin.{FindStruc}
use netdisk4tc.Plugin.RootListing.{Named}
use netdisk4tc.Plugin.Steps.{
  InChain, Held, EndsIn, root_end-EndsIn, root_entry-EndsIn, file_end-EndsIn, file_entry-EndsIn,
}

module _ (disks : Disks) where
  within_bound :
      (find : Option FindStruc) (old : FindData) (b b' : ℕ)
      → b ≤ b'
      → EndsIn disks find old b
      → EndsIn disks find old b'
  within_bound find old b b' le (ds, delivers, few) = (ds, delivers, omega arith)

  root-EndsIn :
      (ns : List Str) (find : FindStruc) (old : FindData) (h : Option ℕ)
      → Named disks.first ns
      → find.is_last ≡ false
      → eq_str find.path root ≡ true
      → find.find_handle ≡ h
      → InChain disks.first h
      → EndsIn disks (some find) old (suc (length disks.first))
  root-EndsIn ns find old none named open_ at_root at inside =
      root_end-EndsIn disks find old (length disks.first) open_ at_root at
  root-EndsIn ns find old (some i) named open_ at_root at inside =
      root_entry-EndsIn disks ns (length disks.first) find old i named open_ at_root at inside
        (omega arith)

  files-EndsIn :
      (files : Files) (find : FindStruc) (old : FindData) (h : Option ℕ)
      → Held files.first
      → find.dict ≡ some files
      → find.is_last ≡ false
      → eq_str find.path root ≡ false
      → find.find_handle ≡ h
      → InChain files.first h
      → EndsIn disks (some find) old (length files.first)
  files-EndsIn files find old none held is open_ no_root at inside =
      file_end-EndsIn disks find old (length files.first) open_ no_root at
  files-EndsIn files find old (some i) held is open_ no_root at inside =
      file_entry-EndsIn disks files (length files.first) find old i held is open_ no_root at inside
        (omega arith)

  -- A search that is not over: at the root its handle is at the end of the chain of the disks or at
  -- a disk of it; elsewhere it has its own files, each with a value, and its handle likewise.
  abbrev pub Searching : FindStruc → Files → Type 0
  Searching find files =
      (find.is_last ≡ false)
      × (((eq_str find.path root ≡ true) × InChain disks.first find.find_handle)
          ⊎ ((eq_str find.path root ≡ false)
              × (find.dict ≡ some files)
              × Held files.first
              × InChain files.first find.find_handle))

  -- Where each disk has a nickname, the calls of `fs_find_next_w` on a search that is not over
  -- end with `FALSE`, behind at most one entry more than there are disks and files, also where the
  -- chain of the disks is not the one with which the search was opened.
  pub fs_find_next_w-EndsIn :
      (ns : List Str) (find : FindStruc) (files : Files) (old : FindData)
      → Named disks.first ns
      → Searching find files
      → EndsIn disks (some find) old (suc (length disks.first + length files.first))
  fs_find_next_w-EndsIn ns find files old named (open_, inl (at_root, inside)) =
      within_bound (some find) old (suc (length disks.first))
        (suc (length disks.first + length files.first)) (omega arith)
        (root-EndsIn ns find old find.find_handle named open_ at_root refl inside)
  fs_find_next_w-EndsIn ns find files old named (open_, inr (no_root, is, held, inside)) =
      within_bound (some find) old (length files.first)
        (suc (length disks.first + length files.first)) (omega arith)
        (files-EndsIn files find old find.find_handle held is open_ no_root refl inside)
