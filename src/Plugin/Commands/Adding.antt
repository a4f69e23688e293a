-- ===== src/Plugin/Commands/Adding.antt =====
-- A disk that is added from the root: the command of the file manager, the dialog, and the listing
-- that follows.
use netdisk4tc.Base.{
  ℕ, ◌+◌, ◌<◌, ◌≡◌, refl, ◌∙◌, ap, some, List, [], ◌∷◌, ◌++◌, map, length, get_elem?, arith, Str,
  codes, eq_str, Run, ok, ◌>>=◌, >>=-ok, Option, false, ◌==◌,
}
use netdisk4tc.Utility.{Block, SystemTime}
use netdisk4tc.Dictionary.{dict_initialize}
use netdisk4tc.Disk.{DiskEntry, path_max, root}
use netdisk4tc.Disk.Listing.{Script}
use netdisk4tc.Disk.Store.{Profile, ndisks_save, ndisks_load, sections_buffer_size, config_file}
use netdisk4tc.Disk.Saved.{
  names_text, IsProfile, Config, entry_of, disks_of, restored, AreConfigs, nicknames, Distinct,
}
use netdisk4tc.Plugin.{FindStruc, new_disk, dots, fs_find_first_w}
use netdisk4tc.Plugin.Delivery.{Delivers}
use netdisk4tc.Plugin.RootListing.{Named, root_listing, fs_find_next_w-root}
use netdisk4tc.Plugin.Commands.{fs_exec_symlink, dialog_box, fs_execute_file_w}
use netdisk4tc.Ui.{
  Answers, Message, init_dialog, button_ok, ended_ok, dialog_text, kind_index, newdisk_proc,
}
use netdisk4tc.Ui.Added.{Padded, added, done, newdisk_proc_lem, reload}

nicknames-Named : (cs : List Config) → Named (map entry_of cs) (nicknames cs)
nicknames-Named [] = tt
nicknames-Named (c ∷ cs) = ((_, refl, refl), nicknames-Named cs)

some_kinds :
    (kinds : List DiskEntry) (i : ℕ) (kind : DiskEntry)
    → get_elem? kinds i ≡ some kind
    → (length kinds == 0) ≡ false
some_kinds [] i kind h = cc
some_kinds (_ ∷ kinds) i kind h = ground arith

module _ {ℓ} {S : Type ℓ} (profile : Profile S) (is : IsProfile profile) (behind : Str → Block)
    (my_dir : Str) (kinds : List DiskEntry) (cs : List Config) (kind : DiskEntry)
    (username nickname : Str) where
  abbrev pub grown : List Config
  grown = cs ++ (added kind username nickname ∷ [])

  dialog_box_lem :
      (shown a : Answers) (later : List (Message × Answers)) (s s' : S)
      → newdisk_proc profile behind my_dir kinds (disks_of cs) button_ok a s
        ≡ ok (done profile is (disks_of grown) s')
      → dialog_box profile behind my_dir kinds
          ((init_dialog, shown) ∷ (button_ok, a) ∷ later)
          (disks_of cs)
          s
        ≡ ok (ended_ok, disks_of grown, s')
  unfolding dialog_box
  dialog_box_lem shown a later s s' h = rw (h)

  -- The entry that adds a disk is opened at the root, and the dialog is confirmed with a user's name
  -- and a title that are no blanks, a kind that there is, and a title that no disk has, the
  -- fields' texts shorter than `INPUT_MAX`; all texts of the disks are plain ASCII texts, which the
  -- store keeps, and their names differ for it and fit into its buffer. Then the file manager is sent to the root, where a listing
  -- has the disks from before and then the new one; and the store loads all these disks, with the
  -- empty text for each token and secret that was `NULL`.
  pub fs_execute_file_w-root_listing :
      (ctow wtoc : Str → Str) (file_time : SystemTime → Option ℕ) (scripts : Str → Script)
      (shown a : Answers) (later : List (Message × Answers)) (s : S)
      → Padded a.username username
      → Padded a.title nickname
      → get_elem? kinds (kind_index (dialog_text a.kind) kinds) ≡ some kind
      → AreConfigs grown
      → Distinct is.same (nicknames grown)
      → length (names_text (nicknames grown)) < sections_buffer_size
      → length my_dir + length config_file < path_max
      → (s' : S) × (fs_execute_file_w profile behind my_dir kinds
            (b'\\' ∷ new_disk)
            (codes "open")
            ((init_dialog, shown) ∷ (button_ok, a) ∷ later)
            (disks_of cs)
            s
          ≡ ok (record {
            status = fs_exec_symlink;
            remote = root;
            disks = disks_of grown;
            store = s';
            requests = [];
          }))
        × (find : FindStruc) × (fs_find_first_w ctow wtoc file_time kinds
              (disks_of grown)
              scripts
              root
            ≡ ok (some (find, dots)))
        × Delivers (disks_of grown) (some find) dots (root_listing (nicknames grown))
        × (ndisks_load profile my_dir (some dict_initialize) s'
            ≡ ok (some (disks_of (map restored grown))))
  unfolding fs_execute_file_w eq_str
  fs_execute_file_w-root_listing ctow wtoc file_time scripts shown a later s user title known are
        distinct names_fit path_fits =
      let (s', saved, loaded) =
        >>=-ok (ndisks_save profile my_dir (some (disks_of grown)) s)
          (ndisks_load profile my_dir (some dict_initialize)) (some (disks_of (map restored grown)))
          (reload profile is my_dir cs (added kind username nickname) s are distinct names_fit
            path_fits) in
      let confirmed =
        newdisk_proc_lem profile is behind my_dir kinds cs kind username nickname a s user title
          known distinct
        ∙ ap (λ (r : Run S). r >>= λ (t : S). ok (done profile is (disks_of grown) t)) saved in
      let (find, opened, delivers) =
        fs_find_next_w-root ctow wtoc file_time kinds (disks_of grown) scripts (nicknames grown)
          (nicknames-Named grown) in
      (
        s',
        rw (
          some_kinds kinds (kind_index (dialog_text a.kind) kinds) kind known,
          dialog_box_lem shown a later s s' confirmed,
        ),
        find,
        opened,
        delivers,
        loaded,
      )
