-- ===== src/Plugin/Module.antt =====
-- `DllMain` of netdisk4tc/ndpluginw.c, as far as it keeps the kinds of disks, and the functions that
-- the plugin exports for file managers without wide characters (netdisk4tc/ndplugin.c).
use netdisk4tc.Base.{ℕ, Bool, false, Option, none, some, List, [], ◌∷◌, ◌++◌, if◌then◌else◌, Str}
use netdisk4tc.Dictionary.{Release, dict_destroy}
use netdisk4tc.Disk.{DiskEntry, Disk, DiskDestroyer, Disks}
use netdisk4tc.Plugin.Commands.{ExecStatus, fs_exec_error}

-- A script of the folder `entries`: its name without the extension, whether it loads and runs, and
-- the strings in its globals.
pub record ScriptFile : Type 0 where
  pub name : Str
  pub loads : Bool
  pub runs : Bool
  pub signin : Option Str
  pub description : Option Str

-- The kind that a script provides: none where it does not load or run, or lacks one of the strings.
abbrev pub kind_of : (Str → Str) → Str → Option Str → Option Str → List DiskEntry
kind_of ctow name none description = []
kind_of ctow name (some signin) none = []
kind_of ctow name (some signin) (some description) =
    record { name = name; description = ctow description; signin = ctow signin } ∷ []

-- The loop over the scripts: `available_disk_entries` grows at its end.
unfoldable pub load_kinds : (Str → Str) → List DiskEntry → List ScriptFile → List DiskEntry
load_kinds ctow kinds [] = kinds
load_kinds ctow kinds (f ∷ fs) =
    load_kinds ctow
      (if f.loads
        then (if f.runs then kinds ++ kind_of ctow f.name f.signin f.description else kinds)
        else kinds)
      fs

-- What the end of the process gives back: the texts of the kinds, in the order of the loop, and what
-- the dictionary of the disks releases.
unfoldable pub freed_kinds : List DiskEntry → List Str
freed_kinds [] = []
freed_kinds (e ∷ es) = e.name ∷ e.description ∷ e.signin ∷ freed_kinds es

unfoldable pub detach : List DiskEntry → Option Disks → List Str × List (Release Disk DiskDestroyer)
unfolding freed_kinds dict_destroy
detach kinds none = (freed_kinds kinds, [])
detach kinds (some disks) = (freed_kinds kinds, dict_destroy disks)

-- `FsInit`, `FsFindFirst`, `FsFindNext`, `FsGetFile` and `FsExecuteFile`: they do nothing.
unfoldable pub fs_init : ℕ → ℕ
fs_init plugin_nr = 0

unfoldable pub fs_find_first : Str → Option ℕ
fs_find_first path = none

unfoldable pub fs_find_next : Option ℕ → Bool
fs_find_next handle = false

unfoldable pub fs_get_file : Str → Str → ℕ
fs_get_file remote local = 0

unfoldable pub fs_execute_file : Str → Str → ExecStatus
fs_execute_file remote verb = fs_exec_error
