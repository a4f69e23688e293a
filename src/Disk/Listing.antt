-- ===== src/Disk/Listing.antt =====
-- `ndisk_lua_push` and `ndisk_dir`. The script's answers are data: `Script`. `ctow` and `wtoc` stand
-- for the conversions of utility.c through the system's code pages, `file_time` for
-- `SystemTimeToFileTime`, which may fail.
use netdisk4tc.Base.{
  ℕ, ◌/◌, ◌%◌, ◌^◌, Bool, Option, none, some, List, [], ◌∷◌, ◌++◌, if◌then◌else◌, Str, codes,
  eq_str, Run, ok, ◌>>=◌, deref,
}
use netdisk4tc.Utility.{wcslcpy, SystemTime, strtotime}
use netdisk4tc.Dictionary.{Dictionary, dict_set_element, all_succeed}
use netdisk4tc.Disk.{DiskStatus, ndisk_ok, ndisk_fatal, DiskEntry, Disk, path_max}

-- The file attributes that the code uses.
pub data Attributes : Type 0 where
  attribute_none attribute_normal attribute_directory attribute_readonly : Attributes

-- `WIN32_FIND_DATAW`. A time is a 64-bit number, 0 where none was set.
pub record FindData : Type 0 where
  pub attributes : Attributes
  pub size_high : ℕ
  pub size_low : ℕ
  pub creation_time : ℕ
  pub access_time : ℕ
  pub write_time : ℕ
  pub file_name : Str

-- `memset(&fData, 0, sizeof(WIN32_FIND_DATAW))`.
abbrev pub zero_data : FindData
zero_data = record {
  attributes = attribute_none;
  size_high = 0;
  size_low = 0;
  creation_time = 0;
  access_time = 0;
  write_time = 0;
  file_name = [];
}

-- The type of the dictionaries that list a directory.
abbrev pub Files : Type 0
Files = Dictionary FindData (Unit {0})

-- A value in a script's table: what `lua_tostring` and `lua_tonumber`, cast to a 32-bit number, give.
pub record Value : Type 0 where
  pub string : Option Str
  pub number : ℕ

-- A row of a script's answer: the keys, as `lua_tostring` gives them, and their values, in the order
-- of `lua_next`. (`lua_tostring` on a key that is a number changes the key under `lua_next`: such
-- tables are outside the model.)
abbrev pub Row : Type 0
Row = List (Option Str × Value)

-- The script behind `lua_reset`: whether its global `dir` is a function, and what that function
-- answers for the table of a disk. `none` is an answer, or a row of it, that is no table.
pub record Script : Type 0 where
  pub has_dir : Bool
  pub dir : List (Str × Option Str) → Option (List (Option Row))

module _ (ctow wtoc : Str → Str) (file_time : SystemTime → Option ℕ) where
  abbrev pub narrow : Option Str → Option Str
  narrow none = none
  narrow (some s) = some (wtoc s)

  -- The fields that the two optional texts add.
  abbrev pub push_optional : Str → Option Str → List (Str × Option Str)
  push_optional name none = []
  push_optional name (some s) = (name, some (wtoc s)) ∷ []

  -- `ndisk_lua_push`: the fields of the table, in the order they are set.
  unfoldable pub ndisk_lua_push : Disk → List (Str × Option Str)
  ndisk_lua_push disk =
      (codes "nickname", narrow disk.nickname)
      ∷ (codes "username", narrow disk.username)
      ∷ (push_optional (codes "token") disk.token ++ push_optional (codes "secret") disk.secret)

  -- The time that a text gives: the old one where it gives none.
  unfoldable pub time_field : Option Str → ℕ → Run ℕ
  unfolding strtotime
  time_field s old = do
    (parsed, time) ←
        strtotime (elim s [ none ↦ none | some t ↦ some (ctow t) ])
          (record {
            year = 0;
            month = 0;
            day_of_week = 0;
            day = 0;
            hour = 0;
            minute = 0;
            second = 0;
            milliseconds = 0;
          })
    ok (if parsed then elim (file_time time) [ none ↦ old | some t ↦ t ] else old)

  abbrev attribute_field : Str → Attributes → Attributes
  attribute_field s old =
      if eq_str s (codes "directory")
      then attribute_directory
      else if eq_str s (codes "file")
      then attribute_normal
      else old

  -- One key of a row. The file's name has room for 260 characters.
  unfoldable pub set_field : FindData → Option Str × Value → Run FindData
  unfolding time_field wcslcpy
  set_field fdata (key, value) = do
    name ← deref key
    if eq_str name (codes "attribute")
        then (do
          s ← deref value.string
          ok (record fdata { attributes = attribute_field s fdata.attributes }))
        else if eq_str name (codes "filename")
        then (do
          s ← deref value.string
          file_name ← wcslcpy 260 (ctow s) path_max
          ok (record fdata { file_name = file_name }))
        else if eq_str name (codes "size")
        then ok (record fdata {
          size_high = value.number / 2 ^ 16 % 2 ^ 16;
          size_low = value.number % 2 ^ 16;
        })
        else if eq_str name (codes "create")
        then (do
          t ← time_field value.string fdata.creation_time
          ok (record fdata { creation_time = t }))
        else if eq_str name (codes "access")
        then (do
          t ← time_field value.string fdata.access_time
          ok (record fdata { access_time = t }))
        else if eq_str name (codes "write")
        then (do t ← time_field value.string fdata.write_time; ok (record fdata { write_time = t }))
        else ok fdata

  unfoldable pub set_fields : FindData → Row → Run FindData
  unfolding set_field
  set_fields fdata [] = ok fdata
  set_fields fdata (f ∷ fs) = do fdata' ← set_field fdata f; set_fields fdata' fs

  -- The loop over the rows. The size of a `WIN32_FIND_DATAW` is 592 bytes.
  unfoldable pub add_rows : Files → List (Option Row) → Run Files
  unfolding set_fields dict_set_element
  add_rows files [] = ok files
  add_rows files (none ∷ rows) = add_rows files rows
  add_rows files (some row ∷ rows) = do
    fdata ← set_fields zero_data row
    (_, files', _) ← dict_set_element files fdata.file_name fdata 592 all_succeed
    add_rows files' rows

  abbrev answered : Files → Option (List (Option Row)) → Run (DiskStatus × Files)
  answered files none = ok (ndisk_ok, files)
  answered files (some rows) = do files' ← add_rows files rows; ok (ndisk_ok, files')

  -- `ndisk_dir`: the result and the dictionary. `script` is the script of the disk's kind.
  unfoldable pub ndisk_dir :
      (Str → Script) → Files → DiskEntry → Disk → Str → Run (DiskStatus × Files)
  unfolding ndisk_lua_push add_rows
  ndisk_dir scripts files entry disk path =
      if (scripts (wtoc entry.name)).has_dir
      then answered files (
          (scripts (wtoc entry.name)).dir
            (ndisk_lua_push disk ++ ((codes "path", some (wtoc path)) ∷ [])))
      else ok (ndisk_fatal, files)
