-- ===== src/Disk.antt =====
-- The configured disks of netdisk4tc/disk.c and disk.h: the data types, `ndisk_parse`,
-- `ndisk_destroy` and `ndisk_lua_push`. A string field is a pointer that may be `NULL`.
pub mod Path
pub mod Store
pub mod Saved
pub mod Buffer
pub mod Restart
pub mod RoundTrip
pub mod Listing
pub mod Rows
pub mod Script
pub mod Agree
pub mod Refine
pub mod Keyed
pub mod Transfers
use netdisk4tc.Base.{
  ℕ, suc, ◌+◌, ◌-◌, Bool, ◌||◌, Option, none, some, List, [], ◌∷◌, ◌++◌, if◌then◌else◌, ◌==◌,
  length, drop, Str, codes, eq_str, Run, ok, ◌>>=◌, deref,
}
use netdisk4tc.Utility.{wcslcpy}
use netdisk4tc.Dictionary.{Dictionary, Status, dict_ok, dict_get_element_s}

-- `NDISK_OK` and `NDISK_FATAL`.
pub data DiskStatus : Type 0 where
  ndisk_ok ndisk_fatal : DiskStatus

-- A kind of disk, which a script provides.
pub record DiskEntry : Type 0 where
  pub name : Str
  pub description : Str
  pub signin : Str

pub record Disk : Type 0 where
  pub type : Option Str
  pub username : Option Str
  pub nickname : Option Str
  pub token : Option Str
  pub secret : Option Str

-- The destroyer that the disks are stored with.
pub data DiskDestroyer : Type 0 where
  ndisk_destroy_s : DiskDestroyer

-- The type of `available_disks`.
abbrev pub Disks : Type 0
Disks = Dictionary Disk DiskDestroyer

-- `PATH_MAX`.
abbrev pub path_max : ℕ
path_max = 260

-- The path of the root.
abbrev pub root : Str
root = b'\\' ∷ []

-- The steps of the loop that looks for the end of a disk's name.
unfoldable pub name_end : Str → ℕ
name_end [] = 0
name_end (c ∷ cs) = let rest = name_end cs in if c == b'\\' then 0 else suc rest

-- The first kind with the name of the disk's type. A `NULL` type is compared with the first kind.
unfoldable pub find_kind : Option Str → List DiskEntry → Run (Option DiskEntry)
find_kind type [] = ok none
find_kind type (e ∷ es) = do
  name ← deref type
  let rest = find_kind type es in (if eq_str name e.name then ok (some e) else rest)

-- What `ndisk_parse` leaves: the result, and `*entry`, `*disk` and `sPath` where it sets them.
pub record Parsed : Type 0 where
  pub code : DiskStatus
  pub entry : Option DiskEntry
  pub disk : Option (Option Disk)
  pub s_path : Option Str

abbrev pub unparsed : Option (Option Disk) → Parsed
unparsed disk = record { code = ndisk_fatal; entry = none; disk = disk; s_path = none }

abbrev parsed_kind : Option Disk → Str → Option DiskEntry → Run Parsed
parsed_kind disk rest none = ok (unparsed (some disk))
parsed_kind disk rest (some e) = do
  s_path ← wcslcpy path_max rest path_max
  elim s_path [
    | [] ↦ (do
      s_path' ← wcslcpy path_max root path_max
      ok (record { code = ndisk_ok; entry = some e; disk = some disk; s_path = some s_path' }))
    | c ∷ cs ↦
        ok (record { code = ndisk_ok; entry = some e; disk = some disk; s_path = some (c ∷ cs) })
  ]

abbrev looked_up : List DiskEntry → Str → Str → Status × Option Disk → Run Parsed
looked_up kinds path tmp (dict_ok, disk) = do
  d ← deref disk
  kind ← find_kind d.type kinds
  parsed_kind disk (drop (length tmp + 1) path) kind
looked_up kinds path tmp (_, disk) = ok (unparsed none)

-- The disk's name is copied into a buffer of `PATH_MAX` characters, with the length of the name as
-- the size of the buffer.
unfoldable pub ndisk_parse : List DiskEntry → Disks → Option Str → Run Parsed
unfolding name_end find_kind dict_get_element_s wcslcpy
ndisk_parse kinds disks none = ok (unparsed none)
ndisk_parse kinds disks (some path) =
    if eq_str path [] || eq_str path root then ok (unparsed none) else (do
      tmp ← wcslcpy path_max (drop 1 path) (name_end (drop 1 path) + 1)
      looked_up kinds path tmp (dict_get_element_s disks tmp none))

-- The blocks that `free` gets.
abbrev pub freed_field : Option Str → List Str
freed_field none = []
freed_field (some s) = s ∷ []

-- `ndisk_destroy(disk)`: `*disk` afterwards, and the blocks freed. The block of the disk itself is
-- not among them.
unfoldable pub ndisk_destroy : Option Disk → Option Disk × List Str
ndisk_destroy none = (none, [])
ndisk_destroy (some d) = (
  none,
  freed_field d.type
      ++ (freed_field d.nickname
          ++ (freed_field d.secret ++ (freed_field d.token ++ freed_field d.username))),
)
