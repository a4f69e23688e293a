-- ===== src/Tests/Ui.antt =====
-- A disk that is added from the root.
use netdisk4tc.Base.{
  ℕ, none, some, Option, ◌≡◌, refl, false, List, [], ◌∷◌, arith, Str, codes, eq_str, ok,
}
use netdisk4tc.Utility.{Block}
use netdisk4tc.Disk.{DiskEntry}
use netdisk4tc.Disk.Saved.{IsConfig, disks_of, restored}
use netdisk4tc.Utility.{SystemTime}
use netdisk4tc.Dictionary.{dict_initialize}
use netdisk4tc.Disk.{root}
use netdisk4tc.Disk.Listing.{Script}
use netdisk4tc.Disk.Store.{ndisks_load}
use netdisk4tc.Disk.Saved.{Config}
use netdisk4tc.Plugin.{FindStruc, new_disk, dots, fs_find_first_w}
use netdisk4tc.Plugin.Delivery.{Delivers}
use netdisk4tc.Plugin.RootListing.{root_listing}
use netdisk4tc.Plugin.Commands.{fs_exec_symlink, fs_execute_file_w}
use netdisk4tc.Plugin.Commands.Adding.{fs_execute_file_w-root_listing}
use netdisk4tc.Ui.{Answers, init_dialog, button_ok, dialog_text, kind_index}
use netdisk4tc.Ui.Added.{Padded, added}
use netdisk4tc.Plugin.Names.{Step, dialog, save_token, run_steps, Names, run_steps-Names}
use netdisk4tc.Tests.Disk.{Memory, memory, memory-IsProfile, disk_1, disk_1-IsConfig, my_dir, used}

abbrev pub kind : DiskEntry
kind = record { name = codes "vdisk"; description = codes "V"; signin = codes "v.net" }

abbrev pub kinds : List DiskEntry
kinds =
    record { name = codes "kanbox"; description = codes "K"; signin = codes "k.net" } ∷ kind ∷ []

abbrev pub same : Str → Str
same s = s

abbrev pub no_file_time : SystemTime → Option ℕ
no_file_time t = none

abbrev pub scripts : Str → Script
scripts name = record { has_dir = false; dir = λ _. none }

abbrev answers : Answers
answers = record {
  kind = codes "V";
  username = codes " bob";
  title = codes "home  ";
  overwrite = false;
}

abbrev pub empty : Str → Block
empty s = []

pub user-Padded : Padded (codes " bob") (codes "bob")
user-Padded = record {
  before = codes " ";
  init = codes "bo";
  last = b'b';
  behind = [];
  text_eq = refl;
  word_eq = refl;
  before_blank = (refl, tt);
  starts = refl;
  no_nul = (omega arith, (omega arith, tt));
  last_no_nul = omega arith;
  last_word = refl;
  behind_blank = tt;
  fits = omega arith;
}

title-Padded : Padded (codes "home  ") (codes "home")
title-Padded = record {
  before = [];
  init = codes "hom";
  last = b'e';
  behind = codes "  ";
  text_eq = refl;
  word_eq = refl;
  before_blank = tt;
  starts = refl;
  no_nul = (omega arith, (omega arith, (omega arith, tt)));
  last_no_nul = omega arith;
  last_word = refl;
  behind_blank = (refl, (refl, tt));
  fits = omega arith;
}

abbrev both : List Config
both = disk_1 ∷ added kind (codes "bob") (codes "home") ∷ []

home-IsConfig : IsConfig (added kind (codes "bob") (codes "home"))
home-IsConfig = record {
  nickname_plain = (refl, (refl, (refl, (refl, tt))));
  nickname_ne = cc;
  type_plain = (refl, (refl, (refl, (refl, (refl, tt)))));
  type_ne = cc;
  type_fits = omega arith;
  username_plain = (refl, (refl, (refl, tt)));
  username_ne = cc;
  username_fits = omega arith;
  token_plain = tt;
  token_fits = omega arith;
  secret_plain = tt;
  secret_fits = omega arith;
}

fs_execute_file_w-root_listing_example :
    (s' : Memory) × (fs_execute_file_w memory empty my_dir kinds
        (b'\\' ∷ new_disk)
        (codes "open")
        ((init_dialog, answers) ∷ (button_ok, answers) ∷ [])
        (disks_of (disk_1 ∷ []))
        used
      ≡ ok (record {
        status = fs_exec_symlink;
        remote = root;
        disks = disks_of both;
        store = s';
        requests = [];
      }))
    × (find : FindStruc) × (fs_find_first_w same same no_file_time kinds
          (disks_of both)
          scripts
          root
        ≡ ok (some (find, dots)))
    × Delivers (disks_of both) (some find) dots (root_listing (codes "work" ∷ codes "home" ∷ []))
    × (ndisks_load memory my_dir (some dict_initialize) s'
        ≡ ok (
            some (
              disks_of
                (restored disk_1 ∷ restored (added kind (codes "bob") (codes "home")) ∷ []))))
unfolding memory-IsProfile eq_str kind_index dialog_text
fs_execute_file_w-root_listing_example =
    fs_execute_file_w-root_listing memory memory-IsProfile empty my_dir kinds (disk_1 ∷ []) kind
      (codes "bob") (codes "home") same same no_file_time scripts answers answers [] used
      user-Padded title-Padded refl (disk_1-IsConfig, (home-IsConfig, tt)) (refl, (refl, tt))
      (omega arith) (omega arith)

-- The dialog adds a disk, and a script then stores a token for it.
abbrev steps : List (Step memory empty same my_dir kinds)
steps = dialog button_ok answers ∷ save_token (some (codes "home", codes "t")) ∷ []

run_steps-Names_example :
    Names memory empty same my_dir kinds
      (run_steps memory empty same my_dir kinds steps (disks_of (disk_1 ∷ []), used))
run_steps-Names_example =
    run_steps-Names memory empty same my_dir kinds steps (disks_of (disk_1 ∷ [])) used (refl, tt)
      ((_, refl, refl), tt)
