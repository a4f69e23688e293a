-- ===== src/Tests/Attach.antt =====
-- The plugin attaches with one script, and with two of which the first has an error.
use netdisk4tc.Base.{
  ℕ, zero, suc, ◌≡◌, refl, true, false, none, some, List, [], ◌∷◌, ◌++◌, if◌then◌else◌, arith, Str,
  codes, eq_str, ok, fault, ◌>>=◌,
}
use netdisk4tc.Utility.{Block}
use netdisk4tc.Dictionary.{dict_initialize}
use netdisk4tc.Disk.Store.{ndisks_load}
use netdisk4tc.Lua.{LuaValue, string, table, function, Outcome, returned, raised, Heap, cleared}
use netdisk4tc.Plugin.Module.{ScriptFile, load_kinds}
use netdisk4tc.Plugin.Load.{load_scripts, attach}
use netdisk4tc.Utility.Trim.{NoNul}
use netdisk4tc.Plugin.Load.Folder.{NoBackslash}
use netdisk4tc.Plugin.Load.Scripts.{complete, not_loaded}
use netdisk4tc.Plugin.Load.Loop.{all_loaded, loads_then, load_scripts-left_over}
use netdisk4tc.Plugin.Load.Attach.{registered, attach-load_kinds}
use netdisk4tc.Tests.Disk.{memory}
use netdisk4tc.Tests.LuaHeap.{Store, lua_heap}

abbrev same : Str → Str
same s = s

-- The name of a script without the extension.
abbrev stem : Str → Str
stem [] = []
stem (c ∷ s) = let rest = stem s in if eq_str (c ∷ s) (codes ".lua") then [] else c ∷ rest

-- Function 0 is `require`, and function 1 a script with both strings.
abbrev functions : ℕ → Store → Outcome × Store
functions zero h = (returned (table 9 ∷ []), h)
functions (suc _) h = (
  returned [],
  record h {
    globals =
        (codes "description", string (codes "Kanbox"))
        ∷ (codes "signin", string (codes "k.net"))
        ∷ h.globals;
  },
)

abbrev broken : Str
broken = codes "C:\\nd\\entries\\bad.lua"

abbrev script_files : Str → Store → Outcome × Store
script_files name h = (
  if eq_str name broken then raised (string (codes "syntax error")) else returned (function 1 ∷ []),
  h,
)

abbrev heap : Heap Store
heap = lua_heap functions script_files

abbrev store : Store
store = record {
  globals = (codes "package", table 0) ∷ (codes "require", function 0) ∷ [];
  tables = [];
  fresh = 1;
}

abbrev kanbox : ScriptFile
kanbox = record {
  name = codes "kanbox";
  loads = true;
  runs = true;
  signin = some (codes "k.net");
  description = some (codes "Kanbox");
}

abbrev bad : ScriptFile
bad = record { name = codes "bad"; loads = false; runs = false; signin = none; description = none }

abbrev folder : Block
folder = codes "C:\\nd"

abbrev filled : ℕ → Block
filled zero = []
filled (suc n) = 0 ∷ filled n

abbrev tail : Block
tail = codes "nd.wfx" ++ filled 248

filled-NoBackslash : (n : ℕ) → NoBackslash (filled n)
filled-NoBackslash zero = tt
filled-NoBackslash (suc n) = (omega arith, filled-NoBackslash n)

folder-NoNul : NoNul folder
folder-NoNul = (omega arith, (omega arith, (omega arith, (omega arith, (omega arith, tt)))))

tail-NoBackslash : NoBackslash tail
tail-NoBackslash = (
  omega arith,
  (omega arith, (omega arith, (omega arith, (omega arith, (omega arith, filled-NoBackslash 248))))),
)

abbrev my_dir : Str
my_dir = codes "C:\\nd\\"

abbrev code_functions : LuaValue × LuaValue × LuaValue
code_functions = (function 2, function 3, function 4)

abbrev one_script : Str → List Str
one_script pattern = codes "kanbox.lua" ∷ []

-- The heap after `require`, the table of the kinds, and the heap after the script.
abbrev ready : Store
ready = heap.set_field store 0 (codes "path") (string (codes "C:\\nd\\?.lua"))

abbrev kinds_made : ℕ × Store
kinds_made = heap.new_table (registered heap ready (table 9) code_functions)

abbrev scripts_run : Store
scripts_run =
    (heap.call (heap.set_field (cleared heap kinds_made.1) 1 (codes "kanbox") (function 1))
      (function 1) []).1

attach-load_kinds_example :
    attach heap same same stem memory
      (folder ++ (b'\\' ∷ tail))
      one_script
      code_functions
      (record { stack = []; heap = store })
      ([], λ _ _. [])
    ≡ (do
      disks ← ndisks_load memory my_dir (some dict_initialize) ([], λ _ _. [])
      ok (record {
        my_dir = my_dir;
        kinds = load_kinds same [] (kanbox ∷ []);
        disks = disks;
        lua = record { stack = []; heap = heap.set_global scripts_run (codes "entries") (table 1) };
      }))
unfolding eq_str
attach-load_kinds_example =
    attach-load_kinds heap same same stem memory folder tail one_script (function 2) (function 3)
      (function 4) (table 9) [] [] store ready scripts_run ([], λ _ _. []) 0 (kanbox ∷ [])
      folder-NoNul tail-NoBackslash refl (omega arith) refl refl
      (loads_then (omega arith)
        (complete (cleared heap kinds_made.1) (function 1) [] (codes "k.net") (codes "Kanbox") refl
          refl refl refl refl refl refl refl refl)
        all_loaded)

load_scripts-left_over_example :
    load_scripts heap same same stem my_dir
      (codes "bad.lua" ∷ codes "kanbox.lua" ∷ [])
      ([], record { stack = table 1 ∷ []; heap = store })
    ≡ fault
unfolding eq_str
load_scripts-left_over_example =
    load_scripts-left_over heap same same stem my_dir 1 [] [] [] [] store store (cleared heap store)
      (cleared heap (cleared heap store)) [] (codes "bad.lua") (codes "kanbox.lua") bad
      (string (codes "syntax error")) (function 1) [] all_loaded (omega arith)
      (not_loaded (string (codes "syntax error")) refl refl) refl (omega arith) refl
