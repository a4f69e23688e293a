-- ===== src/Disk/Rows.antt =====
-- `ndisk_dir` on the rows that a script gives.
use netdisk4tc.Base.{
  ℕ, ◌+◌, ◌*◌, ◌↔◌, ◌-◌, ◌<◌, ◌/◌, ◌%◌, ◌^◌, ◌≡◌, refl, sym, Option, none, some, List, [], ◌∷◌,
  ◌++◌, append-nil, append_assoc, length, take, arith, Str, codes, eq_str, Run, ok, Bool, true,
  Bool-cases, inl, inr, if◌then◌else◌,
}
use netdisk4tc.Utility.{SystemTime}
use netdisk4tc.Utility.Copy.{wcslcpy-take}
use netdisk4tc.Dictionary.{DictEntry, dict_initialize, all_succeed}
use netdisk4tc.Dictionary.Invariant.{NodupKeys, key-fresh}
use netdisk4tc.Dictionary.Insert.{new_entry, dict_set_element-absent}
use netdisk4tc.Disk.{ndisk_ok, DiskEntry, Disk, path_max}
use netdisk4tc.Disk.Listing.{
  attribute_normal, attribute_directory, FindData, zero_data, Files, Value, Row, Script,
  ndisk_lua_push, set_field, set_fields, add_rows, ndisk_dir,
}

-- What a script tells about a file.
pub record File : Type 0 where
  pub is_directory : Bool
  pub name : Str
  pub size : ℕ

abbrev text : Str → Value
text s = record { string = some s; number = 0 }

module _ (digits : ℕ → Str) where
  -- The row: its `attribute`, `filename` and `size`. `digits` is the text of a number.
  abbrev pub row_of : File → Row
  row_of f =
      (some (codes "attribute"), text (if f.is_directory then codes "directory" else codes "file"))
      ∷ (some (codes "filename"), text f.name)
      ∷ (some (codes "size"), record { string = some (digits f.size); number = f.size })
      ∷ []

  abbrev pub rows_of : List File → List (Option Row)
  rows_of [] = []
  rows_of (f ∷ fs) = some (row_of f) ∷ rows_of fs

zero_add : (n : ℕ) → 0 + n ≡ n
zero_add n = omega arith

files-eq :
    {es fs : List (DictEntry FindData (Unit {0}))} {m n : ℕ}
    → es ≡ fs
    → m ≡ n
    → ◌≡◌ {A = Run Files}
        (ok (record { first = es; length = m }))
        (ok (record { first = fs; length = n }))
files-eq p q = λ i. ok (record { first = p i; length = q i })

module _ (ctow wtoc : Str → Str) (file_time : SystemTime → Option ℕ) where
  -- What the listing keeps of a file: the name is cut off at `PATH_MAX - 1` characters, and the two
  -- halves of the size get 16 bits each.
  abbrev pub data_of : File → FindData
  data_of f = record {
    attributes = if f.is_directory then attribute_directory else attribute_normal;
    size_high = f.size / 2 ^ 16 % 2 ^ 16;
    size_low = f.size % 2 ^ 16;
    creation_time = 0;
    access_time = 0;
    write_time = 0;
    file_name = take (path_max - 1) (ctow f.name);
  }

  abbrev pub file_entry : FindData → DictEntry FindData (Unit {0})
  file_entry d = new_entry d.file_name d 592 none

  abbrev pub file_entries : List File → List (DictEntry FindData (Unit {0}))
  file_entries [] = []
  file_entries (f ∷ fs) = file_entry (data_of f) ∷ file_entries fs

  set_fields-row_of :
      (digits : ℕ → Str) (f : File)
      → set_fields ctow wtoc file_time zero_data (row_of digits f) ≡ ok (data_of f)
  unfolding set_fields eq_str
  set_fields-row_of digits f = elim (Bool-cases f.is_directory) [
    | inl dir ↦ rw (dir, wcslcpy-take 260 (ctow f.name) path_max (omega arith) (omega arith))
    | inr file ↦ rw (file, wcslcpy-take 260 (ctow f.name) path_max (omega arith) (omega arith))
  ]

  add_rows-files :
      (digits : ℕ → Str) (fs : List File) (d : Files)
      → NodupKeys (d.first ++ file_entries fs)
      → add_rows ctow wtoc file_time d (rows_of digits fs)
        ≡ ok (record {
          first = d.first ++ file_entries fs;
          length = d.length + length (file_entries fs);
        })
  unfolding add_rows
  add_rows-files digits [] d _ =
      files-eq (sym (append-nil d.first)) (let m : ℕ = d.length in omega arith)
  add_rows-files digits (f ∷ fs) d distinct =
      let e = file_entry (data_of f) in
      rw
        (
          set_fields-row_of digits f,
          dict_set_element-absent d e.key (data_of f) 592 all_succeed
              (key-fresh d.first e (file_entries fs) distinct),
          add_rows-files digits fs (record { first = d.first ++ (e ∷ []); length = d.length + 1 })
              (rw (append_assoc d.first (e ∷ []) (file_entries fs)) distinct),
          append_assoc d.first (e ∷ []) (file_entries fs),
        )
        (files-eq refl (let m : ℕ = d.length in omega arith))

  -- A script that answers with rows of an attribute, a file name and a size, the names different
  -- after the conversion: the listing succeeds and holds one entry for each row, in the order of the
  -- rows, under the file's name.
  pub ndisk_dir-rows :
      (digits : ℕ → Str) (scripts : Str → Script) (kind : DiskEntry) (disk : Disk) (path : Str)
      (fs : List File)
      → (scripts (wtoc kind.name)).has_dir ≡ true
      → (scripts (wtoc kind.name)).dir
          (ndisk_lua_push ctow wtoc file_time disk ++ ((codes "path", some (wtoc path)) ∷ []))
        ≡ some (rows_of digits fs)
      → NodupKeys (file_entries fs)
      → ndisk_dir ctow wtoc file_time scripts dict_initialize kind disk path
        ≡ ok (ndisk_ok, record { first = file_entries fs; length = length (file_entries fs) })
  unfolding ndisk_dir dict_initialize
  ndisk_dir-rows digits scripts kind disk path fs has answer distinct =
      rw (has, answer, add_rows-files digits fs dict_initialize distinct)
        (λ i. ok (
          ndisk_ok,
          record { first = file_entries fs; length = zero_add (length (file_entries fs)) i },
        ))

  -- A size below 2^32 is stored so that the 64-bit number of the two halves is the size exactly
  -- where the size is below 2^16.
  pub set_field-size :
      (fdata : FindData) (s : Option Str) (n : ℕ)
      → n < 2 ^ 32
      → (r : FindData) × (set_field ctow wtoc file_time fdata
            (some (codes "size"), record { string = s; number = n })
          ≡ ok r)
        × ((r.size_high * 2 ^ 32 + r.size_low ≡ n) ↔ (n < 2 ^ 16))
  unfolding set_field eq_str
  set_field-size fdata s n h = (
    record fdata { size_high = n / 2 ^ 16 % 2 ^ 16; size_low = n % 2 ^ 16 },
    refl,
    (λ e. omega arith, λ e. omega arith),
  )
