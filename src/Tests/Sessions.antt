-- ===== src/Tests/Sessions.antt =====
-- A search of a disk and one of the root, open at the same time; the first is closed.
use mathlib.Core.List.{Perm}
use netdisk4tc.Base.{refl, true, false, none, some, [], ◌∷◌, ◌++◌, ◌≡◌, ok, codes, eq_str}
use netdisk4tc.Crt.{wcscpy_s, wcsncpy_s}
use netdisk4tc.Dictionary.{dict_initialize, find_entry}
use netdisk4tc.Dictionary.Ownership.{released, held}
use netdisk4tc.Disk.{root}
use netdisk4tc.Disk.Listing.{Files}
use netdisk4tc.Disk.Path.{path_of}
use netdisk4tc.Disk.Rows.{file_entries}
use netdisk4tc.Plugin.{FindStruc, root_data, dots, fs_find_first_w, fs_find_next_w, fs_find_close}
use netdisk4tc.Plugin.DiskListing.{disk_find}
use netdisk4tc.Plugin.Sessions.{
  Searches, no_searches, listings, Steps, start, then, find_first, find_next, find_close,
  given_back-Steps,
}
use netdisk4tc.Tests.Plugin.{same, no_file_time, files, scripts, kind, home, disks}

abbrev listed : Files
listed = record { first = file_entries same same no_file_time files; length = 2 }

abbrev work : FindStruc
work = disk_find same same no_file_time home kind root (path_of (codes "work") []) listed (some 0)

abbrev at_root : FindStruc
at_root = record {
  disk = none;
  entry = none;
  s_path = [];
  path = root;
  dict = none;
  find_handle = some 0;
  is_last = false;
}

-- Behind its first disk, the last one.
abbrev at_root_end : FindStruc
at_root_end = record at_root { find_handle = none }

opened-work :
    fs_find_first_w same same no_file_time (kind ∷ []) disks scripts (path_of (codes "work") [])
    ≡ ok (some (work, dots))
unfolding fs_find_first_w dict_initialize find_entry eq_str wcsncpy_s wcscpy_s
opened-work = refl

opened-root :
    fs_find_first_w same same no_file_time (kind ∷ []) disks scripts root
    ≡ ok (some (at_root, dots))
unfolding fs_find_first_w eq_str wcscpy_s
opened-root = refl

read-root :
    fs_find_next_w disks (some at_root) dots ≡ ok (true, some at_root_end, root_data (codes "work"))
unfolding fs_find_next_w eq_str wcscpy_s
read-root = refl

abbrev after_closing : Searches
after_closing = record {
  opened = at_root_end ∷ [];
  listed = held listed.first;
  given_back = (fs_find_close (some work)).1 ++ [];
}

steps : Steps same same no_file_time no_searches after_closing
steps =
    then
      (then
        (then
          (then start (
            find_first (kind ∷ []) disks scripts (path_of (codes "work") []) work dots opened-work))
          (find_first (kind ∷ []) disks scripts root at_root dots opened-root))
        (find_next disks [] (work ∷ []) at_root at_root_end dots (root_data (codes "work")) true
          refl read-root))
      (find_close (at_root_end ∷ []) [] work refl)

given_back-Steps_example :
    Perm
      (released ((fs_find_close (some work)).1 ++ []) ++ listings (at_root_end ∷ []))
      (held listed.first)
given_back-Steps_example = given_back-Steps same same no_file_time steps
