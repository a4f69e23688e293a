-- ===== src/Plugin/Commands.antt =====
-- What the file manager has the plugin do: `FsGetFileW` and `FsExecuteFileW` of
-- netdisk4tc/ndpluginw.c, with the types of netdisk4tc/ndplugin.h.
pub mod Adding
pub mod Overwriting
use netdisk4tc.Base.{
  ℕ, ◌&&◌, List, [], ◌∷◌, if◌then◌else◌, ◌==◌, length, Str, codes, eq_str, Run, ok, ◌>>=◌,
}
use netdisk4tc.Utility.{Block, wcslcpy}
use netdisk4tc.Disk.{DiskEntry, Disks, path_max, root}
use netdisk4tc.Disk.Store.{Profile}
use netdisk4tc.Plugin.{new_disk}
use netdisk4tc.Ui.{Answers, Message, Ended, running, ended_ok, ended_cancel, newdisk_proc}

-- `FS_EXEC_OK`, `FS_EXEC_ERROR` and `FS_EXEC_SYMLINK`.
pub data ExecStatus : Type 0 where
  fs_exec_ok fs_exec_error fs_exec_symlink : ExecStatus

-- `RT_Other` to `RT_MsgOKCancel`.
pub data RequestType : Type 0 where
  other user_name password account user_name_firewall password_firewall target_dir url msg_ok
        msg_yes_no msg_ok_cancel :
      RequestType

-- A call of `RequestProcW`.
pub record Request : Type 0 where
  pub type : RequestType
  pub title : Str
  pub text : Str

-- The message where no script provides a kind.
abbrev pub no_kinds : Request
no_kinds = record {
  type = msg_ok;
  title = 37197 ∷ 32622 ∷ 38169 ∷ 35823 ∷ [];
  text =
      32593 ∷ 30424 ∷ 33050 ∷ 26412 ∷ 38169 ∷ 35823 ∷ b',' ∷ b' ' ∷ 27809 ∷ 26377 ∷ 35774 ∷ 32622
      ∷ 20219 ∷ 20309 ∷ 26377 ∷ 25928 ∷ 30340 ∷ 32593 ∷ 30424 ∷ 37197 ∷ 32622 ∷ 25991 ∷ 20214 ∷ b'.'
      ∷ b' ' ∷ [];
}

-- `RemoteInfoStruct`.
pub record RemoteInfo : Type 0 where
  pub size_low : ℕ
  pub size_high : ℕ
  pub last_write_time : ℕ
  pub attr : ℕ

unfoldable pub fs_get_file_w : Str → Str → ℕ → RemoteInfo → ExecStatus
fs_get_file_w remote local copy_flags info = fs_exec_error

-- The result of `FsExecuteFileW`, `RemoteName` afterwards, the disks, the store, and the messages
-- shown. `RemoteName` has room for `PATH_MAX` characters.
pub record Executed {ℓ} (S : Type ℓ) : Type ℓ where
  pub status : ExecStatus
  pub remote : Str
  pub disks : Disks
  pub store : S
  pub requests : List Request

module _ {ℓ} {S : Type ℓ} (profile : Profile S) (behind : Str → Block) (my_dir : Str)
    (kinds : List DiskEntry) where
  -- `DialogBoxW` with `NewdiskProc`: the messages, each with what the dialog holds, go to the
  -- procedure until it ends the dialog.
  unfoldable pub dialog_box : List (Message × Answers) → Disks → S → Run (Ended × Disks × S)
  unfolding newdisk_proc
  dialog_box [] disks s = ok (running, disks, s)
  dialog_box ((message, answers) ∷ events) disks s = do
    r ← newdisk_proc profile behind my_dir kinds disks message answers s
    elim r.ended [
      | running ↦ dialog_box events r.disks r.store
      | ended_ok ↦ ok (ended_ok, r.disks, r.store)
      | ended_cancel ↦ ok (ended_cancel, r.disks, r.store)
    ]

  abbrev pub after_dialog : Str → Ended × Disks × S → Run (Executed S)
  after_dialog remote (ended_ok, disks, s) = do
    remote' ← wcslcpy path_max root path_max
    ok (record {
      status = fs_exec_symlink;
      remote = remote';
      disks = disks;
      store = s;
      requests = [];
    })
  after_dialog remote (_, disks, s) =
      ok (record { status = fs_exec_ok; remote = remote; disks = disks; store = s; requests = [] })

  abbrev pub refused : Str → Disks → S → List Request → Run (Executed S)
  refused remote disks s requests = ok (record {
    status = fs_exec_error;
    remote = remote;
    disks = disks;
    store = s;
    requests = requests;
  })

  unfoldable pub fs_execute_file_w :
      Str → Str → List (Message × Answers) → Disks → S → Run (Executed S)
  unfolding wcslcpy dialog_box
  fs_execute_file_w remote verb events disks s =
      if eq_str verb (codes "open") && eq_str remote (b'\\' ∷ new_disk)
      then (if length kinds == 0
          then refused remote disks s (no_kinds ∷ [])
          else (do ended ← dialog_box events disks s; after_dialog remote ended))
      else refused remote disks s []
