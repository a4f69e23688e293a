-- ===== src/Plugin/Load/Scripts.antt =====
-- One script file in the loop of `DllMain`: what it provides and what it leaves on the stack.
use netdisk4tc.Base.{
  ℕ, ◌+◌, ◌-◌, ◌<◌, ◌≡◌, ◌∙◌, ap, true, false, none, some, List, [], ◌∷◌, ◌++◌, length,
  length-append, append-nil, take-of_length_le, if◌then◌else◌, arith, Str, codes, ok,
}
use netdisk4tc.Http.Text.{wcscat_s-ok}
use netdisk4tc.Utility.{wcslcpy}
use netdisk4tc.Utility.Copy.{wcslcpy-take}
use netdisk4tc.Disk.{DiskEntry, path_max}
use netdisk4tc.Lua.{LuaValue, table, Outcome, returned, raised, Heap, is_string, cleared, lua_text}
use netdisk4tc.Lua.Text.{shown, text_at-top, text_at-below, lua_text-is_string}
use netdisk4tc.Plugin.Module.{ScriptFile, kind_of}
use netdisk4tc.Plugin.Load.{script_path, read_kind, run_script, load_script}

abbrev entries_folder : Str
entries_folder = codes "entries\\"

abbrev pub Fits : Str → Str → Type 0
Fits my_dir file = length my_dir + length entries_folder + length file < path_max

pub copied_dir : (s : Str) → length s < path_max → wcslcpy path_max s path_max ≡ ok s
copied_dir s h =
    wcslcpy-take path_max s path_max (omega arith) (omega arith)
    ∙ ap ok (take-of_length_le (path_max - 1) s (omega arith))

pub script_path_lem :
    (my_dir file : Str)
    → Fits my_dir file
    → script_path my_dir file ≡ ok ((my_dir ++ entries_folder) ++ file)
unfolding script_path
script_path_lem my_dir file h = rw (
  copied_dir my_dir (omega arith),
  wcscat_s-ok my_dir path_max entries_folder (omega arith),
  wcscat_s-ok (my_dir ++ entries_folder) path_max file
      (omega (arith, length-append my_dir entries_folder)),
)

module _ {ℓ} {H : Type ℓ} (api : Heap H) (ctow wtoc split_name : Str → Str) (my_dir : Str)
    (e : ℕ) where
  abbrev pub script_file : Str → Str
  script_file file = wtoc ((my_dir ++ entries_folder) ++ file)

  -- The heap with the chunk in the table of the kinds, and the call of the chunk.
  abbrev pub stored : H → Str → LuaValue → H
  stored h file chunk = api.set_field h e (wtoc (split_name file)) chunk

  abbrev pub started : H → Str → LuaValue → Outcome × H
  started h file chunk =
      api.call (stored h file chunk) (api.field (stored h file chunk) e (wtoc (split_name file))) []

  -- A script file, loaded from one heap to another: what it provides, and what it leaves on the
  -- stack.
  pub data Loads : H → Str → ScriptFile → List LuaValue → H → Type ℓ where
    not_loaded :
        {h h' : H} {file : Str} {f : ScriptFile} (m : LuaValue)
        → f.loads ≡ false
        → api.load_file (cleared api h) (script_file file) ≡ (raised m, h')
        → Loads h file f (shown api m ∷ []) h'
    not_run :
        {h h' : H} {file : Str} {f : ScriptFile} (h1 : H) (chunk m : LuaValue)
        → f.loads ≡ true
        → f.runs ≡ false
        → api.load_file (cleared api h) (script_file file) ≡ (returned (chunk ∷ []), h1)
        → started h1 file chunk ≡ (raised m, h')
        → Loads h file f (shown api m ∷ []) h'
    no_signin :
        {h h' : H} {file : Str} {f : ScriptFile} (h1 : H) (chunk : LuaValue) (rs : List LuaValue)
        → f.loads ≡ true
        → f.runs ≡ true
        → api.load_file (cleared api h) (script_file file) ≡ (returned (chunk ∷ []), h1)
        → started h1 file chunk ≡ (returned rs, h')
        → f.signin ≡ none
        → is_string (api.global h' (codes "signin")) ≡ false
        → Loads h file f [] h'
    no_description :
        {h h' : H} {file : Str} {f : ScriptFile} (h1 : H) (chunk : LuaValue) (rs : List LuaValue)
        (s : Str)
        → f.loads ≡ true
        → f.runs ≡ true
        → api.load_file (cleared api h) (script_file file) ≡ (returned (chunk ∷ []), h1)
        → started h1 file chunk ≡ (returned rs, h')
        → f.signin ≡ some s
        → lua_text api (api.global h' (codes "signin")) ≡ some s
        → f.description ≡ none
        → is_string (api.global h' (codes "description")) ≡ false
        → Loads h file f (api.global h' (codes "signin") ∷ []) h'
    complete :
        {h h' : H} {file : Str} {f : ScriptFile} (h1 : H) (chunk : LuaValue) (rs : List LuaValue)
        (s d : Str)
        → f.loads ≡ true
        → f.runs ≡ true
        → api.load_file (cleared api h) (script_file file) ≡ (returned (chunk ∷ []), h1)
        → started h1 file chunk ≡ (returned rs, h')
        → f.name ≡ split_name file
        → f.signin ≡ some s
        → lua_text api (api.global h' (codes "signin")) ≡ some s
        → f.description ≡ some d
        → lua_text api (api.global h' (codes "description")) ≡ some d
        → Loads h file f [] h'

  -- The kinds after a script.
  abbrev pub with_kind : List DiskEntry → ScriptFile → List DiskEntry
  with_kind kinds f =
      if f.loads
      then (if f.runs then kinds ++ kind_of ctow f.name f.signin f.description else kinds)
      else kinds

  pub load_script_lem :
      (file : Str) (f : ScriptFile) (left st : List LuaValue) (h h' : H) (kinds : List DiskEntry)
      → Fits my_dir file
      → Loads h file f left h'
      → load_script api ctow wtoc split_name my_dir file
          (kinds, record { stack = table e ∷ st; heap = h })
        ≡ ok (with_kind kinds f, record { stack = left ++ (table e ∷ st); heap = h' })
  unfolding load_script run_script read_kind
  load_script_lem file f _ st h h' kinds fits (not_loaded m l o) =
      rw (script_path_lem my_dir file fits, o, l, text_at-top api m (table e ∷ st) h')
  load_script_lem file f _ st h h' kinds fits (not_run h1 c m l r o o1) =
      rw (script_path_lem my_dir file fits, o, o1, l, r, text_at-top api m (table e ∷ st) h')
  load_script_lem file f _ st h h' kinds fits (no_signin h1 c rs l r o o1 n i) =
      rw (script_path_lem my_dir file fits, o, o1, l, r, n, i, append-nil kinds)
  load_script_lem file f _ st h h' kinds fits (no_description h1 c rs s l r o o1 n t n2 i) = rw (
    script_path_lem my_dir file fits,
    o,
    o1,
    l,
    r,
    n,
    n2,
    i,
    lua_text-is_string api _ s t,
    append-nil kinds,
  )
  load_script_lem file f _ st h h' kinds fits (complete h1 c rs s d l r o o1 nm n t n2 t2) = rw (
    script_path_lem my_dir file fits,
    o,
    o1,
    l,
    r,
    n,
    n2,
    lua_text-is_string api _ s t,
    lua_text-is_string api _ d t2,
    text_at-below api (api.global h' (codes "description")) (api.global h' (codes "signin"))
        (table e ∷ st) h',
    text_at-top api (api.global h' (codes "description"))
        (shown api (api.global h' (codes "signin")) ∷ table e ∷ st) h',
    t,
    t2,
    nm,
  )
