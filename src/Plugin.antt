-- ===== src/Plugin.antt =====
-- The file system plugin of netdisk4tc/ndpluginw.c, ndplugin.c and ndplugin.h.
pub mod Sessions
pub mod Delivery
pub mod RootListing
pub mod DiskListing
pub mod Module
pub mod Commands
pub mod Names
pub mod Steps
pub mod Ending
pub mod Load
use netdisk4tc.Base.{
  ℕ, zero, suc, ◌+◌, Bool, true, false, not, ◌&&◌, Option, none, some, List, [], ◌∷◌, ◌++◌,
  if◌then◌else◌, ltb, ◌==◌, length, get_elem?, set, Str, codes, eq_str, Run, ok, fault, ◌>>=◌,
  deref,
}
use netdisk4tc.Utility.{wcslcpy, SystemTime, Block}
use netdisk4tc.Dictionary.{DictEntry, dict_initialize, Release, dict_destroy}
use netdisk4tc.Disk.{
  DiskStatus, ndisk_ok, ndisk_fatal, DiskEntry, Disk, Disks, path_max, root, Parsed, ndisk_parse,
}
use netdisk4tc.Disk.Listing.{
  attribute_directory, attribute_readonly, FindData, zero_data, Files, Script, ndisk_dir,
}

-- A search. `find_handle` is a position in the chain of the disks or of `dict`.
pub record FindStruc : Type 0 where
  pub disk : Option Disk
  pub entry : Option DiskEntry
  pub s_path : Str
  pub path : Str
  pub dict : Option Files
  pub find_handle : Option ℕ
  pub is_last : Bool

-- `dict->first` and `entry->next` as positions.
abbrev pub first_handle {ℓ} : {A : Type ℓ} → List A → Option ℕ
first_handle [] = none
first_handle (_ ∷ _) = some 0

abbrev pub next_handle {ℓ} : {A : Type ℓ} → List A → ℕ → Option ℕ
next_handle es i = if ltb (suc i) (length es) then some (suc i) else none

-- The time 0xFFFFFFFF FFFFFFFE: no time.
abbrev pub no_time : ℕ
no_time = 0xFFFFFFFFFFFFFFFE

-- The entry `..` that the first call gives.
abbrev pub dots : FindData
dots = record zero_data {
  attributes = attribute_directory;
  write_time = no_time;
  file_name = codes "..";
}

-- The name of the entry that adds a disk.
abbrev pub new_disk : Str
new_disk = b'[' ∷ 25805 ∷ 20316 ∷ b']' ∷ 26032 ∷ 22686 ∷ 32593 ∷ 30424 ∷ []

abbrev pub root_data : Str → FindData
root_data name = record zero_data {
  attributes = attribute_directory;
  write_time = no_time;
  file_name = name;
}

abbrev pub new_disk_data : FindData
new_disk_data = record zero_data {
  attributes = attribute_readonly;
  write_time = no_time;
  file_name = new_disk;
}

-- `FsInitW`: the globals that it sets. The procedures are those of the file manager.
pub record Procs (P L R : Type 0) : Type 0 where
  pub plugin_number : ℕ
  pub progress_proc : P
  pub log_proc : L
  pub request_proc : R

unfoldable pub fs_init_w : {P L R : Type 0} → ℕ → P → L → R → ℕ × Procs P L R
fs_init_w nr progress log request = (
  0,
  record { plugin_number = nr; progress_proc = progress; log_proc = log; request_proc = request },
)

-- `FsGetDefRootName` into a buffer with room for `room` characters.
unfoldable pub fs_get_def_root_name : ℕ → ℕ → Run Str
unfolding wcslcpy
fs_get_def_root_name room maxlen = wcslcpy room (codes "Net Disks") maxlen

module _ (ctow wtoc : Str → Str) (file_time : SystemTime → Option ℕ) (kinds : List DiskEntry)
    (disks : Disks) (scripts : Str → Script) where
  abbrev opened : Str → FindStruc → Run (Option (FindStruc × FindData))
  opened path find = do
    path' ← wcslcpy path_max path path_max
    name ← wcslcpy 260 (codes "..") 259
    ok (some (record find { path = path' }, record dots { file_name = name }))

  abbrev listed_disk :
      Str → DiskEntry → Disk → Str → DiskStatus × Files → Run (Option (FindStruc × FindData))
  listed_disk path entry disk s_path (ndisk_fatal, files) = ok none
  listed_disk path entry disk s_path (ndisk_ok, files) = opened path (record {
    disk = some disk;
    entry = some entry;
    s_path = s_path;
    path = [];
    dict = some files;
    find_handle = first_handle files.first;
    is_last = false;
  })

  abbrev find_on_disk : Str → Parsed → DiskStatus → Run (Option (FindStruc × FindData))
  find_on_disk path parsed ndisk_fatal = ok none
  find_on_disk path parsed ndisk_ok = do
    disk ← deref parsed.disk
    elim disk [
      | none ↦ ok none
      | some d ↦ (do
        entry ← deref parsed.entry
        s_path ← deref parsed.s_path
        listing ← ndisk_dir ctow wtoc file_time scripts dict_initialize entry d s_path
        listed_disk path entry d s_path listing)
    ]

  -- `FsFindFirstW`: `none` is `INVALID_HANDLE_VALUE`; otherwise the search and `*FindData`.
  unfoldable pub fs_find_first_w : Str → Run (Option (FindStruc × FindData))
  unfolding ndisk_parse ndisk_dir wcslcpy
  fs_find_first_w path =
      if eq_str path root
      then opened path (record {
        disk = none;
        entry = none;
        s_path = [];
        path = [];
        dict = none;
        find_handle = first_handle disks.first;
        is_last = false;
      })
      else (do parsed ← ndisk_parse kinds disks (some path); find_on_disk path parsed parsed.code)

-- The next entry of the root.
abbrev pub next_disk : Disks → FindStruc → Option ℕ → Run (Bool × Option FindStruc × FindData)
next_disk disks find none = do
  name ← wcslcpy 260 new_disk 259
  ok (true, some (record find { is_last = true }), record new_disk_data { file_name = name })
next_disk disks find (some i) = do
  e ← deref (get_elem? disks.first i)
  disk ← deref e.value
  nickname ← deref disk.nickname
  name ← wcslcpy 260 nickname 259
  ok (true, some (record find { find_handle = next_handle disks.first i }), root_data name)

-- The next entry of a directory.
abbrev pub next_file : FindStruc → FindData → Option ℕ → Run (Bool × Option FindStruc × FindData)
next_file find old none = ok (false, some find, old)
next_file find old (some i) = do
  dict ← deref find.dict
  e ← deref (get_elem? dict.first i)
  fdata ← deref e.value
  name ← wcslcpy 260 fdata.file_name 259
  ok (
    true,
    some (record find { find_handle = next_handle dict.first i }),
    record fdata { file_name = name },
  )

-- `FsFindNextW`: the result, the search and `*FindData`. The chain of the disks is read as it is at
-- the call.
unfoldable pub fs_find_next_w :
    Disks → Option FindStruc → FindData → Run (Bool × Option FindStruc × FindData)
unfolding wcslcpy
fs_find_next_w disks none old = ok (false, none, old)
fs_find_next_w disks (some find) old =
    if find.is_last
    then ok (false, some find, old)
    else if eq_str find.path root
    then next_disk disks find find.find_handle
    else next_file find old find.find_handle

-- `FsFindClose`: the result, what the listing releases, and whether the search's block is freed.
unfoldable pub fs_find_close : Option FindStruc → ℕ × List (Release FindData (Unit {0})) × Bool
unfolding dict_destroy
fs_find_close none = (0, [], false)
fs_find_close (some find) =
    (0, elim find.dict [ none ↦ [] | some files ↦ dict_destroy files ], true)

-- The loop of `DllMain` that cuts the module's path off behind its last backslash: `i` is the
-- position before the decrement. It runs off the front of a buffer with no backslash.
unfoldable pub trim_path : Block → ℕ → Run Block
trim_path b zero = fault
trim_path b (suc i) =
    let rest = trim_path (set b i 0) i in
    elim (get_elem? b i) [ none ↦ fault | some c ↦ if c == b'\\' then ok b else rest ]
