-- ===== src/Plugin/Load/Process.antt =====
-- `DllMain` of netdisk4tc/ndpluginw.c for each reason of its call.
use netdisk4tc.Base.{Option, none, some, List, [], Str, Run, ok, fault, ◌>>=◌}
use netdisk4tc.Utility.{Block}
use netdisk4tc.Dictionary.{Release}
use netdisk4tc.Disk.{Disk, DiskDestroyer}
use netdisk4tc.Disk.Store.{Profile}
use netdisk4tc.Lua.{LuaValue, Heap, LuaState}
use netdisk4tc.Plugin.Module.{detach}
use netdisk4tc.Plugin.Load.{Attached, attach}

-- `ul_reason_for_call`.
pub data Reason : Type 0 where
  process_attach thread_attach thread_detach process_detach : Reason

-- What a call gives back: the texts of the kinds, and what the dictionary of the disks releases.
abbrev pub Freed : Type 0
Freed = List Str × List (Release Disk DiskDestroyer)

-- The process as it was, `none` where it has not attached: closing a Lua state that is not there
-- is a fault.
module _ {ℓ κ} {H : Type ℓ} {S : Type κ} (api : Heap H) (ctow wtoc split_name : Str → Str)
    (profile : Profile S) (module_path : Block) (find_files : Str → List Str)
    (functions : LuaValue × LuaValue × LuaValue) (lua : LuaState H) where
  unfoldable pub dll_main : Reason → Option (Attached H) → S → Run (Option (Attached H) × Freed)
  unfolding attach detach
  dll_main process_attach process s = do
    a ← attach api ctow wtoc split_name profile module_path find_files functions lua s
    ok (some a, ([], []))
  dll_main process_detach none s = fault
  dll_main process_detach (some a) s = ok (none, detach a.kinds a.disks)
  dll_main _ process s = ok (process, ([], []))
