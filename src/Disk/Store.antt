-- ===== src/Disk/Store.antt =====
-- `ndisks_save` and `ndisks_load`. The profile functions of the operating system are the operations
-- of `Profile`, over a state `S` of the file system; what they are documented to do is
-- `IsProfile`.
use netdisk4tc.Base.{
  ℕ, suc, ◌+◌, Bool, true, Option, none, some, [], ◌∷◌, if◌then◌else◌, ◌==◌, drop, Str, codes,
  eq_str, Run, ok, ◌>>=◌, deref,
}
use netdisk4tc.Crt.{wcscat_s}
use netdisk4tc.Utility.{wcslcpy, c_string, Block}
use netdisk4tc.Dictionary.{dict_set_element_s, dict_traverse, all_succeed}
use netdisk4tc.Disk.{Disk, ndisk_destroy_s, Disks, path_max}

-- `write_string` is `WritePrivateProfileStringW(section, key, string, file)`, where `none` is
-- `NULL`; `section_names` gives the buffer that `GetPrivateProfileSectionNamesW` fills; and
-- `get_string` is `GetPrivateProfileStringW` with the default `NULL`.
pub record Profile {ℓ} (S : Type ℓ) : Type ℓ where
  pub write_string : Str → Str → Str → Option Str → S → S
  pub section_names : Str → ℕ → S → Block
  pub get_string : Str → Str → Str → ℕ → S → Str
  pub delete_file : Str → S → S

-- `_config_file`.
abbrev pub config_file : Str
config_file = codes "netdisks.ini"

-- `SECTIONS_BUFFER_SIZE`.
abbrev pub sections_buffer_size : ℕ
sections_buffer_size = 4096

-- The path of the configuration file, in a buffer of a size.
abbrev pub config_path : Str → ℕ → Run Str
config_path my_dir size = do tmp ← wcslcpy size my_dir size; wcscat_s tmp size config_file

module _ {ℓ} {S : Type ℓ} (profile : Profile S) where
  -- The enumerator `ndisk_save_enumerator`; it takes the path of the file as `data`.
  unfoldable pub ndisk_save_enumerator : Str → Str → Option Disk → ℕ → S → Run (Bool × S)
  ndisk_save_enumerator file key value size s = do
    disk ← deref value
    let s1 = profile.write_string file key (codes "type") disk.type s
    let s2 = profile.write_string file key (codes "username") disk.username s1
    let s3 = profile.write_string file key (codes "nickname") disk.nickname s2
    let s4 = profile.write_string file key (codes "token") disk.token s3
    let s5 = profile.write_string file key (codes "secret") disk.secret s4
    ok (true, s5)

  -- `ndisks_save()`; `none` is an `available_disks` that is `NULL`.
  unfoldable pub ndisks_save : Str → Option Disks → S → Run S
  unfolding ndisk_save_enumerator dict_traverse wcslcpy wcscat_s
  ndisks_save my_dir none s = ok s
  ndisks_save my_dir (some disks) s = if disks.length == 0 then ok s else (do
    file ← config_path my_dir path_max
    dict_traverse disks (ndisk_save_enumerator file) (profile.delete_file file s))

  abbrev pub value_of : Str → Str → Str → S → Str
  value_of file section key s = profile.get_string file section key sections_buffer_size s

  -- One section: a disk without type or user name is passed over. The size of a disk is five
  -- pointers of four bytes.
  unfoldable pub load_section : Str → S → Str → Disks → Run Disks
  unfolding dict_set_element_s
  load_section file s section disks =
      if eq_str (value_of file section (codes "type") s) []
      then ok disks
      else if eq_str (value_of file section (codes "username") s) []
      then ok disks
      else (do
        (_, disks', _) ←
            dict_set_element_s disks section
              (record {
                type = some (value_of file section (codes "type") s);
                username = some (value_of file section (codes "username") s);
                nickname = some section;
                token = some (value_of file section (codes "token") s);
                secret = some (value_of file section (codes "secret") s);
              })
              20 (some ndisk_destroy_s) all_succeed
        ok disks')

  -- One position `i` of the buffer `names`, which holds `c`: `j`, where a section's name starts,
  -- and the disks behind it.
  unfoldable pub load_step : Str → S → Block → ℕ → ℕ → ℕ → Disks → Run (ℕ × Disks)
  unfolding load_section c_string
  load_step file s names j i c disks =
      if c == 0
      then (if eq_str (c_string (drop j names)) [] then ok (j, disks) else (do
        disks' ← load_section file s (c_string (drop j names)) disks
        ok (i + 1, disks')))
      else ok (j, disks)

  -- The loop from position `i`; the characters from there on are the argument before the last.
  unfoldable pub load_loop : Str → S → Block → ℕ → ℕ → Block → Disks → Run Disks
  unfolding load_step
  load_loop file s names j i [] disks = ok disks
  load_loop file s names j i (c ∷ cs) disks = do
    (j', disks') ← load_step file s names j i c disks
    load_loop file s names j' (suc i) cs disks'

  abbrev pub load_names : Str → S → Block → Disks → Run Disks
  load_names file s [] disks = ok disks
  load_names file s (c ∷ names) disks =
      if c == 0 then ok disks else load_loop file s (c ∷ names) 0 0 (c ∷ names) disks

  -- `ndisks_load()`.
  unfoldable pub ndisks_load : Str → Option Disks → S → Run (Option Disks)
  unfolding load_loop wcslcpy wcscat_s
  ndisks_load my_dir none s = ok none
  ndisks_load my_dir (some disks) s = do
    file ← config_path my_dir sections_buffer_size
    disks' ← load_names file s (profile.section_names file sections_buffer_size s) disks
    ok (some disks')
