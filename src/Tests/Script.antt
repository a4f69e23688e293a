-- ===== src/Tests/Script.antt =====
-- A script's call of `dir` on a concrete heap.
use netdisk4tc.Base.{
  ℕ, zero, suc, ◌≡◌, refl, true, ◌++◌, Option, none, some, List, [], ◌∷◌, arith, Str, codes, ok,
  ◌>>=◌, eq_str,
}
use netdisk4tc.Utility.{SystemTime}
use netdisk4tc.Dictionary.{dict_initialize}
use netdisk4tc.Lua.{
  cleared, LuaValue, nil, number, string, table, function, Outcome, returned, raised, Heap,
}
use netdisk4tc.Disk.{DiskEntry, Disk, root}
use netdisk4tc.Disk.Listing.{Script, ndisk_lua_push, ndisk_dir}
use netdisk4tc.Disk.Script.{lua_dir}
use netdisk4tc.Disk.Agree.{row_of_pairs}
use netdisk4tc.Disk.Refine.{put_fields, lua_dir-ndisk_dir}
use netdisk4tc.Tests.LuaHeap.{Store, lua_heap}

abbrev same : Str → Str
same s = s

abbrev no_file_time : SystemTime → Option ℕ
no_file_time t = none

-- Function 0 is the script: it makes function 1 the global `dir`, which answers with table 1.
abbrev functions : ℕ → Store → Outcome × Store
functions zero h = (returned [], record h { globals = (codes "dir", function 1) ∷ h.globals })
functions (suc zero) h = (returned (table 1 ∷ []), h)
functions (suc (suc _)) h = (raised nil, h)

abbrev no_files : Str → Store → Outcome × Store
no_files name h = (raised nil, h)

abbrev heap : Heap Store
heap = lua_heap functions no_files

abbrev picture : List (Str × LuaValue)
picture = (codes "name", string (codes "a.txt")) ∷ (codes "size", number 70000) ∷ []

-- The kinds, the answer with a table and a number, and its row.
abbrev store : Store
store = record {
  globals = (codes "entries", table 0) ∷ [];
  tables =
      (0, (string (codes "kanbox"), function 0) ∷ [])
      ∷ (1, (number 1, table 2) ∷ (number 2, number 7) ∷ [])
      ∷ (
        2,
        (string (codes "name"), string (codes "a.txt"))
            ∷ (string (codes "size"), number 70000)
            ∷ [],
      )
      ∷ [];
  fresh = 3;
}

abbrev scripts : Str → Script
scripts name = record {
  has_dir = true;
  dir = λ _. some (some (row_of_pairs heap same same no_file_time picture) ∷ none ∷ []);
}

abbrev kind : DiskEntry
kind = record { name = codes "kanbox"; description = codes "K"; signin = codes "k.net" }

abbrev home : Disk
home = record {
  type = some (codes "kanbox");
  username = some (codes "ann");
  nickname = some (codes "work");
  token = none;
  secret = none;
}

abbrev pushed : Store
pushed =
    put_fields heap
      (record (cleared heap store) {
        globals = (codes "dir", function 1) ∷ (cleared heap store).globals;
        fresh = 4;
      })
      3 (ndisk_lua_push same same no_file_time home ++ ((codes "path", some root) ∷ []))

lua_dir-ndisk_dir_example :
    lua_dir heap same same no_file_time 6 dict_initialize kind home root
      (record { stack = nil ∷ []; heap = store })
    ≡ (do
      (code, files) ← ndisk_dir same same no_file_time scripts dict_initialize kind home root
      ok (code, files, record { stack = nil ∷ []; heap = pushed }))
unfolding eq_str ndisk_lua_push
lua_dir-ndisk_dir_example =
    lua_dir-ndisk_dir heap same same no_file_time 6 3 dict_initialize kind home root (nil ∷ [])
      store
      (record (cleared heap store) {
        globals = (codes "dir", function 1) ∷ (cleared heap store).globals;
      })
      pushed scripts 0 1 1 (returned []) [] ((number 1, table 2) ∷ (number 2, number 7) ∷ [])
      (some (row_of_pairs heap same same no_file_time picture) ∷ none ∷ []) refl refl refl refl
      (refl, (refl, refl)) ((2, picture, refl, (refl, (refl, refl)), refl, omega arith), (refl, tt))
      (omega arith) refl refl
