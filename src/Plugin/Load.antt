-- ===== src/Plugin/Load.antt =====
-- `DllMain` of netdisk4tc/ndpluginw.c when the process attaches, with every call of Lua.
pub mod Scripts
pub mod Loop
pub mod Folder
pub mod Attach
pub mod Process
use netdisk4tc.Base.{
  ℕ, Option, some, List, [], ◌∷◌, ◌++◌, if◌then◌else◌, Str, codes, Run, ok, fault, ◌>>=◌, deref,
}
use netdisk4tc.Crt.{wcscat_s}
use netdisk4tc.Utility.{Block, c_string, wcslcpy}
use netdisk4tc.Dictionary.{dict_initialize}
use netdisk4tc.Disk.{DiskEntry, Disks, path_max}
use netdisk4tc.Disk.Store.{Profile, ndisks_load}
use netdisk4tc.Lua.{
  LuaValue, string, Outcome, Heap, LuaState, LuaStatus, lua_ok, lua_error, is_string, push,
  push_all, adjust, returned, raised, lua_pushstring, lua_pop, value_at, lua_getglobal,
  lua_setglobal, lua_newtable, lua_getfield, lua_setfield, lua_tostring, lua_pcall, lua_loadfile,
  reset_globals,
}
use netdisk4tc.Plugin.{trim_path}

-- The path of a script file, and those of the search for the files and of `package.path`.
unfoldable pub script_path : Str → Str → Run Str
unfolding wcslcpy wcscat_s
script_path my_dir file = do
  t1 ← wcslcpy path_max my_dir path_max
  t2 ← wcscat_s t1 path_max (codes "entries\\")
  wcscat_s t2 path_max file

unfoldable pub folder_path : Str → Str → Run Str
unfolding wcslcpy wcscat_s
folder_path my_dir pattern = do
  tmp ← wcslcpy path_max my_dir path_max
  wcscat_s tmp path_max pattern

-- What the attached process holds.
pub record Attached {ℓ} (H : Type ℓ) : Type ℓ where
  pub my_dir : Str
  pub kinds : List DiskEntry
  pub disks : Option Disks
  pub lua : LuaState H

-- The conversions of utility.c, and `_wsplitpath_s` for the name without folder and extension.
module _ {ℓ} {H : Type ℓ} (api : Heap H) (ctow wtoc split_name : Str → Str) where
  abbrev pub Loading : Type ℓ
  Loading = List DiskEntry × LuaState H

  -- The error's message is read for the debugger: a number becomes a string.
  abbrev pub report : List DiskEntry → LuaState H → Run Loading
  report kinds l = do (_, l') ← lua_tostring api 0 l; ok (kinds, l')

  -- Both strings are on the stack.
  abbrev pub add_kind : Str → List DiskEntry → LuaState H → Run Loading
  add_kind name kinds l = do
    (signin, l1) ← lua_tostring api 1 l
    (description, l2) ← lua_tostring api 0 l1
    s ← deref signin
    d ← deref description
    l3 ← lua_pop 2 l2
    ok (kinds ++ (record { name = name; description = ctow d; signin = ctow s } ∷ []), l3)

  -- The strings that the script has made.
  unfoldable pub read_kind : Str → List DiskEntry → LuaState H → Run Loading
  read_kind name kinds l = do
    let l1 = lua_getglobal api (codes "signin") l
    signin ← value_at 0 l1
    if is_string signin
        then (do
          let l2 = lua_getglobal api (codes "description") l1
          description ← value_at 0 l2
          if is_string description
              then add_kind name kinds l2
              else (do l3 ← lua_pop 1 l2; ok (kinds, l3)))
        else (do l2 ← lua_pop 1 l1; ok (kinds, l2))

  abbrev pub finish_script : Str → List DiskEntry → LuaStatus × LuaState H → Run Loading
  finish_script name kinds (lua_error, l) = report kinds l
  finish_script name kinds (lua_ok, l) = read_kind name kinds l

  -- The chunk is on the stack: it becomes a field of the table below, and is called.
  unfoldable pub run_script : Str → List DiskEntry → LuaStatus × LuaState H → Run Loading
  unfolding read_kind
  run_script file kinds (lua_error, l) = report kinds l
  run_script file kinds (lua_ok, l) = do
    l1 ← lua_setfield api 1 (wtoc (split_name file)) l
    l2 ← lua_getfield api 0 (wtoc (split_name file)) l1
    called ← lua_pcall api 0 0 l2
    finish_script (split_name file) kinds called

  -- One round of the loop over the files.
  unfoldable pub load_script : Str → Str → Loading → Run Loading
  unfolding script_path run_script
  load_script my_dir file (kinds, l) = do
    l1 ← reset_globals api l
    path ← script_path my_dir file
    run_script file kinds (lua_loadfile api (wtoc path) l1)

  unfoldable pub load_scripts : Str → List Str → Loading → Run Loading
  unfolding load_script
  load_scripts my_dir [] loading = ok loading
  load_scripts my_dir (file ∷ files) loading = do
    loading' ← load_script my_dir file loading
    load_scripts my_dir files loading'

  -- `lua_call`: an error is not caught.
  abbrev call_or_fault : List LuaValue → ℕ → Outcome × H → Run (LuaState H)
  call_or_fault st results (raised _, h) = fault
  call_or_fault st results (returned rs, h) =
      ok (record { stack = push_all (adjust results rs) st; heap = h })

  abbrev set_package_path : Str → LuaState H → Run (LuaState H)
  set_package_path path l = do
    l1 ←
        lua_setfield api 1 (codes "path")
          (lua_pushstring (some (wtoc path)) (lua_getglobal api (codes "package") l))
    lua_pop 1 l1

  -- `require("Json")`, whose result becomes the global `json`.
  abbrev require_json : LuaState H → Run (LuaState H)
  require_json l = do
    l1 ←
        call_or_fault l.stack 1
          (api.call l.heap (api.global l.heap (codes "require")) (string (codes "Json") ∷ []))
    lua_setglobal api (codes "json") l1

  -- `lua_register`.
  abbrev lua_register : Str → LuaValue → LuaState H → Run (LuaState H)
  lua_register name f l = lua_setglobal api name (push f l)

  -- `wp_http`, `wp_explorer` and `wp_savt` as Lua's functions.
  abbrev register_all : LuaValue → LuaValue → LuaValue → LuaState H → Run (LuaState H)
  register_all http expl savt l = do
    l1 ← lua_register (codes "http") http l
    l2 ← lua_register (codes "expl") expl l1
    lua_register (codes "savt") savt l2

  -- `DLL_PROCESS_ATTACH`: `my_dir` is what `GetModuleFileNameW` leaves in the buffer, and
  -- `find_files` the names that `FindFirstFileW` and `FindNextFileW` give, none where the handle is
  -- invalid. `lua` is a new state with the libraries.
  unfoldable pub attach {κ} :
      {S : Type κ}
      → Profile S
      → Block
      → (Str → List Str)
      → LuaValue × LuaValue × LuaValue
      → LuaState H
      → S
      → Run (Attached H)
  unfolding trim_path folder_path load_scripts ndisks_load
  attach profile module_path find_files (http, expl, savt) lua s = do
    block ← trim_path module_path 260
    let my_dir = c_string block
    pattern ← folder_path my_dir (codes "entries\\*.lua")
    modules ← folder_path my_dir (codes "?.lua")
    l1 ← set_package_path modules lua
    l2 ← require_json l1
    l3 ← register_all http expl savt l2
    (kinds, l4) ← load_scripts my_dir (find_files pattern) ([], lua_newtable api l3)
    l5 ← lua_setglobal api (codes "entries") l4
    disks ← ndisks_load profile my_dir (some dict_initialize) s
    ok (record { my_dir = my_dir; kinds = kinds; disks = disks; lua = l5 })
