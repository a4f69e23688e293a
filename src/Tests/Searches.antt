-- ===== src/Tests/Searches.antt =====
-- A search of the root that stands at its second disk.
use netdisk4tc.Base.{refl, false, inl, none, some, [], ◌∷◌, arith, codes, eq_str}
use netdisk4tc.Dictionary.{dict_initialize}
use netdisk4tc.Disk.{Disks, root}
use netdisk4tc.Disk.Listing.{zero_data}
use netdisk4tc.Disk.Saved.{disks_of}
use netdisk4tc.Plugin.{FindStruc}
use netdisk4tc.Plugin.Steps.{EndsIn}
use netdisk4tc.Plugin.Ending.{fs_find_next_w-EndsIn}
use netdisk4tc.Tests.Disk.{disk_1, disk_2}

abbrev disks : Disks
disks = disks_of (disk_1 ∷ disk_2 ∷ [])

abbrev find : FindStruc
find = record {
  disk = none;
  entry = none;
  s_path = [];
  path = root;
  dict = none;
  find_handle = some 1;
  is_last = false;
}

fs_find_next_w-EndsIn_example : EndsIn disks (some find) zero_data 3
unfolding eq_str dict_initialize
fs_find_next_w-EndsIn_example =
    fs_find_next_w-EndsIn disks (codes "work" ∷ codes "home" ∷ []) find dict_initialize zero_data
      ((_, refl, refl), ((_, refl, refl), tt)) (refl, inl (refl, omega arith))
