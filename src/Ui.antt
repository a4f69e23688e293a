-- ===== src/Ui.antt =====
-- `NewdiskProc` of netdisk4tc/ui.c: the dialog that adds a disk.
pub mod Auth
pub mod Added
pub mod Named
use netdisk4tc.Base.{
  ℕ, zero, suc, ◌+◌, ◌-◌, Bool, none, some, List, [], ◌∷◌, ◌++◌, if◌then◌else◌, leb, length,
  get_elem?, drop, take, Str, codes, eq_str, Run, ok, ◌>>=◌, ◌>>◌, expect, deref,
}
use netdisk4tc.Crt.{wcscpy_s, wcscat_s}
use netdisk4tc.Utility.{Block, c_string, trim}
use netdisk4tc.Dictionary.{dict_exists, dict_set_element_s, all_succeed}
use netdisk4tc.Disk.{DiskEntry, Disk, Disks, ndisk_destroy_s}
use netdisk4tc.Disk.Store.{Profile, ndisks_save}

-- `INPUT_MAX`.
abbrev pub input_max : ℕ
input_max = 1024

-- What the dialog shows and answers: the texts of its fields, and whether the user lets an
-- existing disk be overwritten.
pub record Answers : Type 0 where
  pub kind : Str
  pub username : Str
  pub title : Str
  pub overwrite : Bool

-- The messages that the procedure handles.
pub data Message : Type 0 where
  init_dialog button_register button_ok button_cancel other : Message

-- How the dialog ends.
pub data Ended : Type 0 where
  running ended_ok ended_cancel : Ended

-- The result, how the dialog ends, the disks, the store, and the pages that are opened.
pub record Handled {ℓ} (S : Type ℓ) : Type ℓ where
  pub code : ℕ
  pub ended : Ended
  pub disks : Disks
  pub store : S
  pub opened : List Str

-- The position of the first kind with a description, or the number of the kinds.
unfoldable pub kind_index : Str → List DiskEntry → ℕ
kind_index text [] = 0
kind_index text (e ∷ es) =
    let rest = kind_index text es in if eq_str text e.description then 0 else suc rest

-- The page where one signs in for a kind.
unfoldable pub signin_page : Str → List DiskEntry → List Str
signin_page text [] = []
signin_page text (e ∷ es) =
    let rest = signin_page text es in if eq_str text e.description then e.signin ∷ [] else rest

-- What `GetDlgItemTextW` stores of a field's text: as much as fits before the terminator.
unfoldable pub dialog_text : Str → Str
dialog_text text = take (input_max - 1) text

-- `n` characters with the contents of a block.
unfoldable pub sized : ℕ → Block → Block
sized zero b = []
sized (suc n) [] = 0 ∷ sized n []
sized (suc n) (c ∷ b) = c ∷ sized n b

-- The buffer of `INPUT_MAX` characters with a text; `b` is what it holds behind the terminator.
unfoldable pub in_buffer : Str → Block → Block
unfolding sized
in_buffer s b = s ++ (0 ∷ sized (input_max - 1 - length s) b)

-- A field's text in the buffer, without the blanks around it: where it begins, and the text. What
-- the buffer holds behind a text is `behind`.
unfoldable pub field_text : (Str → Block) → Str → Run (ℕ × Str)
unfolding dialog_text in_buffer trim c_string
field_text behind text = do
  (start, buff) ← trim (in_buffer (dialog_text text) (behind text))
  ok (start, c_string (drop start buff))

-- The nickname where the title is empty, written from position `start` of the buffer. A kind that
-- is not found is read behind the end of the kinds.
unfoldable pub default_nickname : List DiskEntry → ℕ → ℕ → Str → Run Str
unfolding wcscpy_s wcscat_s
default_nickname kinds i start username = do
  expect (leb (start + 512) input_max)
  kind ← deref (get_elem? kinds i)
  t1 ← wcscpy_s input_max kind.description
  t2 ← wcscat_s t1 input_max (codes "(")
  t3 ← wcscat_s t2 input_max username
  t4 ← wcscat_s t3 input_max (codes ")")
  expect (leb (start + length t4 + 1) input_max)
  ok t4

unfoldable pub nickname_of : List DiskEntry → ℕ → Str → ℕ × Str → Run Str
unfolding default_nickname
nickname_of kinds i username (start, title) =
    if eq_str title [] then default_nickname kinds i start username else ok title

-- The disk that is added; its type is `NULL` where no kind has the description.
unfoldable pub new_disk : List DiskEntry → Str → Str → Str → Disk
unfolding kind_index
new_disk kinds text username nickname = record {
  type = elim (get_elem? kinds (kind_index text kinds)) [ none ↦ none | some e ↦ some e.name ];
  username = some username;
  nickname = some nickname;
  token = none;
  secret = none;
}

module _ {ℓ} {S : Type ℓ} (profile : Profile S) (behind : Str → Block) where
  abbrev pub unchanged : ℕ → Ended → Disks → S → List Str → Run (Handled S)
  unchanged code ended disks s pages =
      ok (record { code = code; ended = ended; disks = disks; store = s; opened = pages })

  abbrev pub add_disk : Str → Disks → Disk → Str → S → Run (Handled S)
  add_disk my_dir disks disk nickname s = do
    (_, disks', _) ← dict_set_element_s disks nickname disk 20 (some ndisk_destroy_s) all_succeed
    s' ← ndisks_save profile my_dir (some disks') s
    ok (record { code = 0; ended = ended_ok; disks = disks'; store = s'; opened = [] })

  -- The command `IDOK` with the user's name trimmed.
  abbrev pub confirm : Str → List DiskEntry → Disks → Answers → S → Str → Run (Handled S)
  confirm my_dir kinds disks a s username =
      if eq_str username [] then unchanged 0 running disks s [] else (do
        title ← field_text behind a.title
        nickname ← nickname_of kinds (kind_index (dialog_text a.kind) kinds) username title
        if dict_exists disks nickname
            then (if a.overwrite
                then add_disk my_dir disks (new_disk kinds (dialog_text a.kind) username nickname)
                    nickname s
                else unchanged 1 running disks s [])
            else add_disk my_dir disks (new_disk kinds (dialog_text a.kind) username nickname)
                nickname s)

  -- `NewdiskProc`. `WM_INITDIALOG` fills the list of the kinds.
  unfoldable pub newdisk_proc :
      Str → List DiskEntry → Disks → Message → Answers → S → Run (Handled S)
  unfolding dialog_text field_text nickname_of new_disk kind_index signin_page dict_exists
      dict_set_element_s ndisks_save
  newdisk_proc my_dir kinds disks init_dialog a s = unchanged 0 running disks s []
  newdisk_proc my_dir kinds disks button_register a s =
      unchanged 0 running disks s (signin_page (dialog_text a.kind) kinds)
  newdisk_proc my_dir kinds disks button_ok a s = do
    (_, username) ← field_text behind a.username
    confirm my_dir kinds disks a s username
  newdisk_proc my_dir kinds disks button_cancel a s = unchanged 1 ended_cancel disks s []
  newdisk_proc my_dir kinds disks other a s = unchanged 0 running disks s []
