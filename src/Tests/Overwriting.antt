-- ===== src/Tests/Overwriting.antt =====
-- Two disks, `work` and `home`: `work` is to be overwritten.
use netdisk4tc.Base.{none, some, true, ◌≡◌, refl, [], ◌∷◌, arith, codes, eq_str, ok}
use netdisk4tc.Dictionary.{dict_get_element_s, dict_exists}
use netdisk4tc.Disk.{root, Disks}
use netdisk4tc.Disk.Saved.{disks_of}
use netdisk4tc.Disk.Store.{ndisks_save}
use netdisk4tc.Plugin.{FindStruc, dots, fs_find_first_w}
use netdisk4tc.Plugin.Commands.Overwriting.{replaced, newdisk_proc-overwrites}
use netdisk4tc.Plugin.Delivery.{Delivers}
use netdisk4tc.Plugin.RootListing.{root_listing}
use netdisk4tc.Ui.{Answers, button_ok, newdisk_proc, dialog_text, kind_index}
use netdisk4tc.Ui.Added.{Padded, added, done}
use netdisk4tc.Tests.Disk.{Memory, memory, memory-IsProfile, disk_1, disk_2, my_dir, used}
use netdisk4tc.Tests.Ui.{kind, kinds, same, no_file_time, scripts, empty, user-Padded}

abbrev answers : Answers
answers = record {
  kind = codes "V";
  username = codes " bob";
  title = codes "work ";
  overwrite = true;
}

work-Padded : Padded (codes "work ") (codes "work")
work-Padded = record {
  before = [];
  init = codes "wor";
  last = b'k';
  behind = codes " ";
  text_eq = refl;
  word_eq = refl;
  before_blank = tt;
  starts = refl;
  no_nul = (omega arith, (omega arith, (omega arith, tt)));
  last_no_nul = omega arith;
  last_word = refl;
  behind_blank = (refl, tt);
  fits = omega arith;
}

abbrev before : Disks
before = disks_of (disk_1 ∷ disk_2 ∷ [])

abbrev after : Disks
after = replaced (disk_1 ∷ []) disk_2 (added kind (codes "bob") (codes "work"))

newdisk_proc-overwrites_example :
    (s' : Memory) × (newdisk_proc memory empty my_dir kinds before button_ok answers used
      ≡ ok (done memory memory-IsProfile after s'))
    × (ndisks_save memory my_dir (some after) used ≡ ok s')
    × (dict_get_element_s after (codes "work") none ≡ dict_get_element_s before (codes "work") none)
    × (find : FindStruc) × (fs_find_first_w same same no_file_time kinds after scripts root
        ≡ ok (some (find, dots)))
    × Delivers after (some find) dots (root_listing (codes "work" ∷ codes "work" ∷ []))
unfolding dict_exists eq_str kind_index dialog_text
newdisk_proc-overwrites_example =
    newdisk_proc-overwrites memory memory-IsProfile empty my_dir kinds (disk_1 ∷ []) disk_2 kind
      (codes "bob") (codes "work") same same no_file_time scripts answers used user-Padded
      work-Padded refl refl refl refl (omega arith)
