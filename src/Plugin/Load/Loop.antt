-- ===== src/Plugin/Load/Loop.antt =====
-- The loop of `DllMain` over the script files, against `load_kinds`.
use netdisk4tc.Base.{
  fault, ℕ, ◌≡◌, refl, sym, ◌∙◌, ap, false, List, [], ◌∷◌, ◌++◌, append-nil, Str, ok,
}
use netdisk4tc.Disk.{DiskEntry}
use netdisk4tc.Lua.{
  store_field, nil, boolean, number, string, function, LuaValue, is_table, table, returned, Heap,
  cleared,
}
use netdisk4tc.Plugin.Module.{ScriptFile, load_kinds}
use netdisk4tc.Plugin.Load.{run_script, load_script, load_scripts}
use netdisk4tc.Plugin.Load.Scripts.{
  Fits, script_path_lem, script_file, Loads, with_kind, load_script_lem,
}

module _ {ℓ} {H : Type ℓ} (api : Heap H) (ctow wtoc split_name : Str → Str) (my_dir : Str)
    (e : ℕ) where
  -- Script files that leave nothing on the stack, one after another.
  pub data LoadAll : H → List Str → List ScriptFile → H → Type ℓ where
    all_loaded : {h : H} → LoadAll h [] [] h
    loads_then :
        {h h1 h' : H} {file : Str} {f : ScriptFile} {files : List Str} {fs : List ScriptFile}
        → Fits my_dir file
        → Loads api ctow wtoc split_name my_dir e h file f [] h1
        → LoadAll h1 files fs h'
        → LoadAll h (file ∷ files) (f ∷ fs) h'

  load_scripts-append :
      (files more : List Str) (fs : List ScriptFile) (st : List LuaValue) (h h' : H)
      (kinds : List DiskEntry)
      → LoadAll h files fs h'
      → load_scripts api ctow wtoc split_name my_dir
          (files ++ more)
          (kinds, record { stack = table e ∷ st; heap = h })
        ≡ load_scripts api ctow wtoc split_name my_dir more
            (load_kinds ctow kinds fs, record { stack = table e ∷ st; heap = h' })
  unfolding load_scripts load_kinds
  load_scripts-append _ more _ st h _ kinds all_loaded = refl
  load_scripts-append _ more _ st h h' kinds
        (loads_then {h1 = h1} {file = file} {f = f} {files = files} {fs = fs} fits l ls) =
      rw (load_script_lem api ctow wtoc split_name my_dir e file f [] st h h1 kinds fits l) (
        load_scripts-append files more fs st h1 h'
          (with_kind api ctow wtoc split_name my_dir e kinds f) ls)

  -- The loop over the scripts, with every call of Lua, keeps the kinds that `load_kinds` keeps, and
  -- the stack, where each script's path fits and the script loads and runs and either makes both
  -- strings or makes no `signin`.
  pub load_scripts-load_kinds :
      (files : List Str) (fs : List ScriptFile) (st : List LuaValue) (h h' : H)
      (kinds : List DiskEntry)
      → LoadAll h files fs h'
      → load_scripts api ctow wtoc split_name my_dir files
          (kinds, record { stack = table e ∷ st; heap = h })
        ≡ ok (load_kinds ctow kinds fs, record { stack = table e ∷ st; heap = h' })
  unfolding load_scripts
  load_scripts-load_kinds files fs st h h' kinds ls =
      ap
        (λ (names : List Str).
          load_scripts api ctow wtoc split_name my_dir names
            (kinds, record { stack = table e ∷ st; heap = h }))
        (sym (append-nil files))
      ∙ load_scripts-append files [] fs st h h' kinds ls

  store_field-no_table :
      (h : H) (x : LuaValue) (name : Str) (v : LuaValue) (st : List LuaValue)
      → is_table x ≡ false
      → store_field api h x name v (x ∷ st) ≡ fault
  store_field-no_table h nil name v st no_table = refl
  store_field-no_table h (boolean _) name v st no_table = refl
  store_field-no_table h (number _) name v st no_table = refl
  store_field-no_table h (string _) name v st no_table = refl
  store_field-no_table h (function _) name v st no_table = refl
  store_field-no_table h (table _) name v st no_table = cc

  -- Behind scripts that load and run and leave nothing, and with paths that fit into `PATH_MAX`: a
  -- script that leaves a value other than a table on the stack (the message where it does not load
  -- or does not run, or its `signin` where it makes no `description`) ends the program, uncaught, as
  -- soon as the next script loads.
  pub load_scripts-left_over :
      (files more : List Str) (fs : List ScriptFile) (st : List LuaValue) (h h1 h2 h3 : H)
      (kinds : List DiskEntry) (file next : Str) (f : ScriptFile) (x chunk : LuaValue)
      (left : List LuaValue)
      → LoadAll h files fs h1
      → Fits my_dir file
      → Loads api ctow wtoc split_name my_dir e h1 file f (x ∷ left) h2
      → is_table x ≡ false
      → Fits my_dir next
      → api.load_file (cleared api h2) (script_file api ctow wtoc split_name my_dir e next)
        ≡ (returned (chunk ∷ []), h3)
      → load_scripts api ctow wtoc split_name my_dir
          (files ++ (file ∷ next ∷ more))
          (kinds, record { stack = table e ∷ st; heap = h })
        ≡ fault
  unfolding load_scripts load_script run_script
  load_scripts-left_over files more fs st h h1 h2 h3 kinds file next f x chunk left ls fits l
        no_table next_fits o =
      load_scripts-append files (file ∷ next ∷ more) fs st h h1 kinds ls
      ∙ rw (
        load_script_lem api ctow wtoc split_name my_dir e file f (x ∷ left) st h1 h2
            (load_kinds ctow kinds fs) fits l,
        script_path_lem my_dir next next_fits,
        o,
        store_field-no_table h3 x (wtoc (split_name next)) chunk (left ++ (table e ∷ st)) no_table,
      )
