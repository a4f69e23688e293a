-- ===== src/Plugin/Load/Attach.antt =====
-- What the attached process holds.
use netdisk4tc.Base.{
  ℕ, ◌+◌, ◌<◌, ◌≡◌, List, [], ◌∷◌, ◌++◌, length, arith, Str, codes, ok, ◌>>=◌, some,
}
use netdisk4tc.Http.Text.{wcscat_s-ok}
use netdisk4tc.Utility.{Block}
use netdisk4tc.Dictionary.{dict_initialize}
use netdisk4tc.Disk.{path_max}
use netdisk4tc.Disk.Store.{Profile, ndisks_load}
use netdisk4tc.Lua.{LuaValue, string, table, returned, Heap}
use netdisk4tc.Plugin.Module.{ScriptFile, load_kinds}
use netdisk4tc.Plugin.Load.{folder_path, attach}
use netdisk4tc.Utility.Trim.{NoNul}
use netdisk4tc.Plugin.Load.Folder.{NoBackslash, trim_path-folder, c_string-folder}
use netdisk4tc.Plugin.Load.Scripts.{copied_dir}
use netdisk4tc.Plugin.Load.Loop.{LoadAll, load_scripts-load_kinds}

abbrev pub all_scripts : Str
all_scripts = codes "entries\\*.lua"

folder_path_lem :
    (my_dir pattern : Str)
    → length my_dir + length pattern < path_max
    → folder_path my_dir pattern ≡ ok (my_dir ++ pattern)
unfolding folder_path
folder_path_lem my_dir pattern h =
    rw (copied_dir my_dir (omega arith), wcscat_s-ok my_dir path_max pattern h)

-- The heap after `json` and the three functions are registered.
abbrev pub registered {ℓ} :
    {H : Type ℓ} → Heap H → H → LuaValue → LuaValue × LuaValue × LuaValue → H
registered api h json (http, expl, savt) =
    api.set_global
      (api.set_global (api.set_global (api.set_global h (codes "json") json) (codes "http") http)
        (codes "expl") expl)
      (codes "savt") savt

module _ {ℓ κ} {H : Type ℓ} {S : Type κ} (api : Heap H) (ctow wtoc split_name : Str → Str)
    (profile : Profile S) (dir tail : Block) (find_files : Str → List Str)
    (http expl savt json : LuaValue) where
  abbrev my_dir : Str
  my_dir = dir ++ codes "\\"

  abbrev with_path : H → ℕ → H
  with_path h p = api.set_field h p (codes "path") (string (wtoc (my_dir ++ codes "?.lua")))

  -- The table of the kinds, and the heap behind it.
  abbrev kinds_table : H → ℕ × H
  kinds_table h = api.new_table (registered api h json (http, expl, savt))

  -- The process attaches. Its module's path is a folder, a backslash and a name, and all paths fit
  -- into `PATH_MAX`; `package` is a table and `require("Json")` returns; and each script loads and
  -- runs and either makes both strings or makes no `signin`. Then the folder is kept with its
  -- backslash, the kinds are those of `load_kinds` for the scripts of the folder `entries`, the
  -- global `entries` is the table of the chunks, the stack is as it was, and the disks are those that
  -- `ndisks_load` gives.
  pub attach-load_kinds :
      (st rs : List LuaValue) (h h2 h4 : H) (s : S) (p : ℕ) (fs : List ScriptFile)
      → NoNul dir
      → NoBackslash tail
      → length dir + 1 + length tail ≡ 260
      → length my_dir + length all_scripts < path_max
      → api.global h (codes "package") ≡ table p
      → api.call
          (with_path h p)
          (api.global (with_path h p) (codes "require"))
          (string (codes "Json") ∷ [])
        ≡ (returned (json ∷ rs), h2)
      → LoadAll api ctow wtoc split_name my_dir
          (kinds_table h2).0
          (kinds_table h2).1
          (find_files (my_dir ++ all_scripts))
          fs
          h4
      → attach api ctow wtoc split_name profile
          (dir ++ (b'\\' ∷ tail))
          find_files
          (http, expl, savt)
          (record { stack = st; heap = h })
          s
        ≡ (do
          disks ← ndisks_load profile my_dir (some dict_initialize) s
          ok (record {
            my_dir = my_dir;
            kinds = load_kinds ctow [] fs;
            disks = disks;
            lua = record {
              stack = st;
              heap = api.set_global h4 (codes "entries") (table (kinds_table h2).0);
            };
          }))
  unfolding attach
  attach-load_kinds st rs h h2 h4 s p fs plain plains size fits pack require ls = rw (
    trim_path-folder dir tail plains size,
    c_string-folder dir tail plain,
    folder_path_lem my_dir all_scripts fits,
    folder_path_lem my_dir (codes "?.lua") (omega arith),
    pack,
    require,
    load_scripts-load_kinds api ctow wtoc split_name my_dir (kinds_table h2).0
        (find_files (my_dir ++ all_scripts)) fs st (kinds_table h2).1 h4 [] ls,
  )
