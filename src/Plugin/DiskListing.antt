-- ===== src/Plugin/DiskListing.antt =====
-- The listing of a directory of a disk, from the path to the last entry.
use netdisk4tc.Base.{
  ℕ, zero, suc, ◌-◌, ◌<◌, ◌≤◌, ◌≡◌, ◌≢◌, refl, sym, ◌∙◌, ap, true, false, Option, none, some, List,
  [], ◌∷◌, ◌++◌, length, get_elem?-concat, append_assoc, take, arith, Str, codes, ok, eq_str,
  eq_str_ne,
}
use netdisk4tc.Utility.{SystemTime}
use netdisk4tc.Utility.Copy.{wcslcpy-take}
use netdisk4tc.Dictionary.{DictEntry, dict_ok, dict_get_element_s}
use netdisk4tc.Dictionary.Invariant.{NodupKeys}
use netdisk4tc.Disk.{DiskEntry, Disk, Disks, root, path_max, find_kind}
use netdisk4tc.Disk.Path.{IsName, IsRest, path_of, path_of-ne_root, sub_path, ndisk_parse-path}
use netdisk4tc.Disk.Listing.{FindData, Script, Files, ndisk_lua_push}
use netdisk4tc.Disk.Rows.{File, rows_of, data_of, file_entry, file_entries, ndisk_dir-rows}
use netdisk4tc.Plugin.{FindStruc, fs_find_first_w, fs_find_next_w, dots, first_handle}
use netdisk4tc.Plugin.Delivery.{Delivers, ends, gives, handle_at, first_handle-eq, next_handle-eq}

take-take {ℓ} : {A : Type ℓ} (m n : ℕ) (xs : List A) → m ≤ n → take m (take n xs) ≡ take m xs
take-take zero n xs h = refl
take-take (suc m) zero xs h = absurd (omega arith)
take-take (suc m) (suc n) [] h = refl
take-take (suc m) (suc n) (x ∷ xs) h = ap (λ ys. x ∷ ys) (take-take m n xs (omega arith))

module _ (ctow wtoc : Str → Str) (file_time : SystemTime → Option ℕ) where
  -- What is delivered of a file: a name is cut off at 258 characters.
  abbrev pub delivered : File → FindData
  delivered f = record (data_of ctow wtoc file_time f) { file_name = take 258 (ctow f.name) }

  abbrev pub file_listing : List File → List FindData
  file_listing [] = []
  file_listing (f ∷ fs) = delivered f ∷ file_listing fs

  abbrev entries_of : List File → List (DictEntry FindData (Unit {0}))
  entries_of fs = file_entries ctow wtoc file_time fs

  next-file :
      (disks : Disks) (find : FindStruc) (files : Files)
      (pre : List (DictEntry FindData (Unit {0}))) (f : File) (fs : List File) (old : FindData)
      → eq_str find.path root ≡ false
      → find.dict ≡ some files
      → find.is_last ≡ false
      → find.find_handle ≡ some (length pre)
      → files.first ≡ pre ++ entries_of (f ∷ fs)
      → fs_find_next_w disks (some find) old
        ≡ ok (
          true,
          some (record find {
            find_handle =
                handle_at
                  (length
                    (pre ++ (file_entry ctow wtoc file_time (data_of ctow wtoc file_time f) ∷ [])))
                  (entries_of fs);
          }),
          delivered f,
        )
  unfolding fs_find_next_w
  next-file disks find files pre f fs old path dict last handle chain = rw (
    path,
    last,
    handle,
    dict,
    chain,
    next_handle-eq pre (file_entry ctow wtoc file_time (data_of ctow wtoc file_time f))
        (entries_of fs),
    get_elem?-concat pre (entries_of fs)
        (file_entry ctow wtoc file_time (data_of ctow wtoc file_time f)),
    wcslcpy-take 260 (take (path_max - 1) (ctow f.name)) 259 (omega arith) (omega arith),
    take-take 258 259 (ctow f.name) (omega arith),
  )

  -- A search of a directory with a handle.
  abbrev pub disk_find : Disk → DiskEntry → Str → Str → Files → Option ℕ → FindStruc
  disk_find d kind s_path path files h = record {
    disk = some d;
    entry = some kind;
    s_path = s_path;
    path = path;
    dict = some files;
    find_handle = h;
    is_last = false;
  }

  module _ (disks : Disks) (d : Disk) (kind : DiskEntry) (s_path path : Str) (files : Files) where
    files-Delivers :
        (pre : List (DictEntry FindData (Unit {0}))) (fs : List File) (old : FindData)
        → eq_str path root ≡ false
        → files.first ≡ pre ++ entries_of fs
        → Delivers disks
            (some (disk_find d kind s_path path files (handle_at (length pre) (entries_of fs))))
            old
            (file_listing fs)
    unfolding fs_find_next_w
    files-Delivers pre [] old ne chain = ends (rw (ne))
    files-Delivers pre (f ∷ fs) old ne chain =
        let e = file_entry ctow wtoc file_time (data_of ctow wtoc file_time f) in
        gives
          (next-file disks (disk_find d kind s_path path files (some (length pre))) files pre f fs
            old ne refl refl refl chain)
          (files-Delivers (pre ++ (e ∷ [])) fs (delivered f) ne
            (chain ∙ sym (append_assoc pre (e ∷ []) (entries_of fs))))

  cut-ne_root :
      (name rest : Str) → name ≢ [] → eq_str (take (path_max - 1) (path_of name rest)) root ≡ false
  cut-ne_root [] rest h = absurd (h refl)
  cut-ne_root (c ∷ name) rest h = eq_str_ne (take (path_max - 1) (path_of (c ∷ name) rest)) root cc

  -- Opening a directory of a known disk, whose name is shorter than `PATH_MAX` and whose script
  -- answers with rows of an attribute, a file name and a size, the names different after the
  -- conversion: the call succeeds, the first entry is
  -- `..`, and the calls that follow deliver one entry for each row, in the order of the rows, and
  -- then end. The script gets the disk's texts and the rest of the path.
  pub fs_find_next_w-rows :
      (kinds : List DiskEntry) (disks : Disks) (scripts : Str → Script) (digits : ℕ → Str)
      (name rest : Str) (d : Disk) (kind : DiskEntry) (fs : List File)
      → IsName name
      → IsRest rest
      → name ≢ []
      → length name < path_max
      → dict_get_element_s disks name none ≡ (dict_ok, some d)
      → find_kind d.type kinds ≡ ok (some kind)
      → (scripts (wtoc kind.name)).has_dir ≡ true
      → (scripts (wtoc kind.name)).dir (
          ndisk_lua_push ctow wtoc file_time d
          ++ ((codes "path", some (wtoc (sub_path rest))) ∷ []))
        ≡ some (rows_of digits fs)
      → NodupKeys (entries_of fs)
      → (find : FindStruc) × (fs_find_first_w ctow wtoc file_time kinds disks scripts
            (path_of name rest)
          ≡ ok (some (find, dots)))
        × Delivers disks (some find) dots (file_listing fs)
  unfolding fs_find_first_w
  fs_find_next_w-rows kinds disks scripts digits name rest d kind fs hn hr ne fits found known has
        answer distinct =
      (
        disk_find d kind (sub_path rest) (take (path_max - 1) (path_of name rest))
            (record { first = entries_of fs; length = length (entries_of fs) })
            (first_handle (entries_of fs)),
        rw (
          ndisk_parse-path kinds disks name rest d kind hn hr ne fits found known,
          path_of-ne_root name rest ne,
          ndisk_dir-rows ctow wtoc file_time digits scripts kind d (sub_path rest) fs has answer
              distinct,
          wcslcpy-take path_max (path_of name rest) path_max (omega arith) (omega arith),
          wcslcpy-take 260 (codes "..") 259 (omega arith) (omega arith),
        ),
        rw (first_handle-eq (entries_of fs)) (
            files-Delivers disks d kind (sub_path rest) (take (path_max - 1) (path_of name rest))
              (record { first = entries_of fs; length = length (entries_of fs) }) [] fs dots
              (cut-ne_root name rest ne) refl),
      )
