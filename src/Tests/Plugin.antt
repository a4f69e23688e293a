-- ===== src/Tests/Plugin.antt =====
-- A script that lists two files, and the searches of the root and of a disk.
use netdisk4tc.Base.{
  ℕ, ◌+◌, ◌*◌, ◌^◌, ◌<◌, ◌≡◌, ◌↔◌, refl, true, false, Option, none, some, List, [], ◌∷◌, arith, Str,
  codes, eq_str, ok,
}
use netdisk4tc.Utility.{SystemTime}
use netdisk4tc.Dictionary.{dict_initialize, dict_get_element_s, find_entry}
use netdisk4tc.Disk.{Disk, DiskEntry, Disks, ndisk_ok, find_kind, root}
use netdisk4tc.Disk.Listing.{FindData, zero_data, Script, ndisk_dir, set_field}
use netdisk4tc.Disk.Path.{path_of}
use netdisk4tc.Disk.Rows.{File, rows_of, file_entries, ndisk_dir-rows, set_field-size}
use netdisk4tc.Disk.Saved.{disks_of}
use netdisk4tc.Plugin.{FindStruc, fs_find_first_w, dots}
use netdisk4tc.Plugin.Delivery.{Delivers}
use netdisk4tc.Plugin.DiskListing.{file_listing, fs_find_next_w-rows}
use netdisk4tc.Plugin.RootListing.{root_listing, fs_find_next_w-root}

-- ASCII code pages, and a conversion of times that always fails.
abbrev pub same : Str → Str
same s = s

abbrev pub no_file_time : SystemTime → Option ℕ
no_file_time t = none

abbrev pub files : List File
files =
    record { is_directory = true; name = codes "pics"; size = 0 }
    ∷ record { is_directory = false; name = codes "a.txt"; size = 70000 }
    ∷ []

abbrev no_digits : ℕ → Str
no_digits n = []

abbrev pub scripts : Str → Script
scripts name = record { has_dir = true; dir = λ _. some (rows_of no_digits files) }

abbrev pub kind : DiskEntry
kind = record { name = codes "kanbox"; description = codes "K"; signin = codes "k.net" }

abbrev pub home : Disk
home = record {
  type = some (codes "kanbox");
  username = some (codes "ann");
  nickname = some (codes "work");
  token = none;
  secret = none;
}

abbrev pub disks : Disks
disks = disks_of (
    record {
      nickname = codes "work";
      type = codes "kanbox";
      username = codes "ann";
      token = none;
      secret = none;
    }
    ∷ [])

ndisk_dir-rows_example :
    ndisk_dir same same no_file_time scripts dict_initialize kind home root
    ≡ ok (ndisk_ok, record { first = file_entries same same no_file_time files; length = 2 })
unfolding find_entry eq_str
ndisk_dir-rows_example =
    ndisk_dir-rows same same no_file_time no_digits scripts kind home root files refl refl
      (refl, (refl, tt))

set_field-size_example :
    (r : FindData) × (set_field same same no_file_time zero_data
        (some (codes "size"), record { string = none; number = 70000 })
      ≡ ok r)
    × ((r.size_high * 2 ^ 32 + r.size_low ≡ 70000) ↔ (70000 < 2 ^ 16))
set_field-size_example = set_field-size same same no_file_time zero_data none 70000 (omega arith)

fs_find_next_w-root_example :
    (find : FindStruc) × (fs_find_first_w same same no_file_time (kind ∷ []) disks scripts root
      ≡ ok (some (find, dots)))
    × Delivers disks (some find) dots (root_listing (codes "work" ∷ []))
fs_find_next_w-root_example =
    fs_find_next_w-root same same no_file_time (kind ∷ []) disks scripts (codes "work" ∷ [])
      ((home, refl, refl), tt)

fs_find_next_w-rows_example :
    (find : FindStruc) × (fs_find_first_w same same no_file_time
        (kind ∷ [])
        disks
        scripts
        (path_of (codes "work") [])
      ≡ ok (some (find, dots)))
    × Delivers disks (some find) dots (file_listing same same no_file_time files)
unfolding dict_get_element_s find_kind find_entry eq_str
fs_find_next_w-rows_example =
    fs_find_next_w-rows same same no_file_time (kind ∷ []) disks scripts no_digits (codes "work") []
      home kind files (omega arith, (omega arith, (omega arith, (omega arith, tt)))) tt (cc)
      (omega arith) refl refl refl refl (refl, (refl, tt))
