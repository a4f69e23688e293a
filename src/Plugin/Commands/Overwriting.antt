-- ===== src/Plugin/Commands/Overwriting.antt =====
-- A disk that is there already: the dialog is confirmed with its name, and the user has it
-- overwritten.
use mathlib.Core.List.{map-append}
use netdisk4tc.Base.{
  Option, ◌∙◌, Run, ap, ℕ, ◌+◌, ◌<◌, ◌≡◌, Bool-cases, inl, inr, ◌==◌, refl, true, false, none, some,
  List, [], ◌∷◌, ◌++◌, map, length, get_elem?, arith, Str, eq_str, ok, ◌>>=◌,
}
use netdisk4tc.Utility.{SystemTime, Block}
use netdisk4tc.Dictionary.{
  find_entry, DictEntry, dict_exists, dict_get_element_s, dict_traverse, traverse_loop, all_succeed,
}
use netdisk4tc.Dictionary.Insert.{set-present}
use netdisk4tc.Dictionary.Lookup.{find_entry_of_exists}
use netdisk4tc.Disk.Listing.{Script}
use netdisk4tc.Plugin.{FindStruc, dots, fs_find_first_w}
use netdisk4tc.Plugin.Delivery.{Delivers}
use netdisk4tc.Disk.{root, DiskEntry, Disk, DiskDestroyer, Disks, path_max, ndisk_destroy_s}
use netdisk4tc.Disk.Store.{Profile, ndisk_save_enumerator, ndisks_save, config_file}
use netdisk4tc.Disk.RoundTrip.{config_path-ok}
use netdisk4tc.Disk.Saved.{IsProfile, Config, entry_of, disks_of, nicknames}
use netdisk4tc.Plugin.RootListing.{Named, root_listing, fs_find_next_w-root}
use netdisk4tc.Ui.{Answers, button_ok, dialog_text, kind_index, newdisk_proc, nickname_of, new_disk}
use netdisk4tc.Ui.Added.{Padded, added, done, field_text_lem, word-ne}

module _ {ℓ} {S : Type ℓ} (profile : Profile S) where
  saves_one :
      (file key : Str) (d : Disk) (size : ℕ) (s : S)
      → (s' : S) × (ndisk_save_enumerator profile file key (some d) size s ≡ ok (true, s'))
  unfolding ndisk_save_enumerator
  saves_one file key d size s = (_, refl)

  -- Disks that all have a block are saved.
  traverse-saves :
      (file : Str) (es : List (DictEntry Disk DiskDestroyer)) (ns : List Str) (s : S)
      → Named es ns
      → (s' : S) × (traverse_loop es (ndisk_save_enumerator profile file) s ≡ ok s')
  unfolding traverse_loop
  traverse-saves file [] [] s named = (s, refl)
  traverse-saves file [] (_ ∷ _) s named = absurd named
  traverse-saves file (e ∷ es) [] s named = absurd named
  traverse-saves file (e ∷ es) (n ∷ ns) s ((d, has, _), named) =
      let (s1, one) = saves_one file e.key d e.size s in
      let (s', rest) = traverse-saves file es ns s1 named in (s', rw (traverse_loop, has, one) rest)

  ndisks_save-returns :
      (my_dir : Str) (disks : Disks) (ns : List Str) (s : S)
      → Named disks.first ns
      → length my_dir + length config_file < path_max
      → (s' : S) × (ndisks_save profile my_dir (some disks) s ≡ ok s')
  unfolding ndisks_save dict_traverse
  ndisks_save-returns my_dir disks ns s named fits = elim (Bool-cases (disks.length == 0)) [
    | inl empty ↦ (s, rw empty)
    | inr some_disks ↦
        let file = my_dir ++ config_file in
        let (s', saved) = traverse-saves file disks.first ns (profile.delete_file file s) named in
        (s', rw (some_disks, config_path-ok my_dir path_max fits) saved)
  ]

-- The disks where the last one's value is replaced.
abbrev pub replaced : List Config → Config → Config → Disks
replaced pre last c = record {
  first = map entry_of pre ++ (record (entry_of last) { value = (entry_of c).value } ∷ []);
  length = length (pre ++ (last ∷ []));
}

replaced-Named :
    (pre : List Config) (last c : Config)
    → Named (replaced pre last c).first (nicknames pre ++ (c.nickname ∷ []))
replaced-Named [] last c = ((_, refl, refl), tt)
replaced-Named (d ∷ pre) last c = ((_, refl, refl), replaced-Named pre last c)

find_entry-replaced :
    (key : Str) (pre : List Config) (last c : Config)
    → eq_str key last.nickname ≡ false
    → find_entry key (replaced pre last c).first
      ≡ find_entry key (map entry_of (pre ++ (last ∷ [])))
unfolding find_entry
find_entry-replaced key [] last c other = rw other
find_entry-replaced key (d ∷ pre) last c other =
    ground (arith, find_entry-replaced key pre last c other)

module _ {ℓ} {S : Type ℓ} (profile : Profile S) (is : IsProfile profile) (behind : Str → Block)
    (my_dir : Str) (kinds : List DiskEntry) (pre : List Config) (last : Config) (kind : DiskEntry)
    (username nickname : Str) where
  abbrev disks : Disks
  disks = disks_of (pre ++ (last ∷ []))

  abbrev after : Disks
  after = replaced pre last (added kind username nickname)

  newdisk_proc-replaces :
      (a : Answers) (s : S)
      → Padded a.username username
      → Padded a.title nickname
      → get_elem? kinds (kind_index (dialog_text a.kind) kinds) ≡ some kind
      → a.overwrite ≡ true
      → dict_exists disks nickname ≡ true
      → newdisk_proc profile behind my_dir kinds disks button_ok a s
        ≡ (ndisks_save profile my_dir (some after) s >>= λ (s' : S). ok (done profile is after s'))
  unfolding newdisk_proc nickname_of new_disk
  newdisk_proc-replaces a s user title known overwrite exists =
      let (i, trimmed) = field_text_lem behind a.username username user in
      let (j, titled) = field_text_lem behind a.title nickname title in
      let (e, hit) = find_entry_of_exists disks nickname exists in
      rw (
        trimmed,
        titled,
        word-ne a.username username user,
        word-ne a.title nickname title,
        exists,
        overwrite,
        known,
        set-present disks nickname
            (record {
              type = some kind.name;
              username = some username;
              nickname = some nickname;
              token = none;
              secret = none;
            })
            20 (some ndisk_destroy_s) all_succeed (map entry_of pre) (entry_of last)
            (map-append entry_of pre (last ∷ [])) hit,
      )

  -- The dialog is confirmed with the title of a disk that there is, other than the last, and the user
  -- lets it be overwritten. The fields' texts fit into the buffer. The call
  -- succeeds and saves what the dictionary then holds, but a lookup of the title gives the old disk,
  -- and the root lists the title in the place of the last disk, whose nickname is listed no more.
  pub newdisk_proc-overwrites :
      (ctow wtoc : Str → Str) (file_time : SystemTime → Option ℕ) (scripts : Str → Script)
      (a : Answers) (s : S)
      → Padded a.username username
      → Padded a.title nickname
      → get_elem? kinds (kind_index (dialog_text a.kind) kinds) ≡ some kind
      → a.overwrite ≡ true
      → dict_exists disks nickname ≡ true
      → eq_str nickname last.nickname ≡ false
      → length my_dir + length config_file < path_max
      → (s' : S) × (newdisk_proc profile behind my_dir kinds disks button_ok a s
          ≡ ok (done profile is after s'))
        × (ndisks_save profile my_dir (some after) s ≡ ok s')
        × (dict_get_element_s after nickname none ≡ dict_get_element_s disks nickname none)
        × (find : FindStruc) × (fs_find_first_w ctow wtoc file_time kinds after scripts root
            ≡ ok (some (find, dots)))
        × Delivers after (some find) dots (root_listing (nicknames pre ++ (nickname ∷ [])))
  unfolding dict_get_element_s
  newdisk_proc-overwrites ctow wtoc file_time scripts a s user title known overwrite exists other
        fits =
      let c = added kind username nickname in
      let names = nicknames pre ++ (nickname ∷ []) in
      let named = replaced-Named pre last c in
      let (s', saved) = ndisks_save-returns profile my_dir after names s named fits in
      let (find, opened, delivers) =
        fs_find_next_w-root ctow wtoc file_time kinds after scripts names named in
      (
        s',
        newdisk_proc-replaces a s user title known overwrite exists
            ∙ ap (λ (r : Run S). r >>= λ (t : S). ok (done profile is after t)) saved,
        saved,
        rw (dict_get_element_s, find_entry-replaced nickname pre last c other),
        find,
        opened,
        delivers,
      )
