-- ===== src/Plugin/Names.antt =====
-- The disks between two listings: what the dialog and the scripts make of them, in any order.

use netdisk4tc.Base.{◌≡◌, Bool, false, Option, List, [], ◌∷◌, Str, Run, ok, fault, ◌>>=◌}
use netdisk4tc.Utility.{Block}
use netdisk4tc.Disk.{DiskEntry, Disks}
use netdisk4tc.Disk.Store.{Profile}
use netdisk4tc.Ui.{Answers, Message, Handled, newdisk_proc}
use netdisk4tc.Wrapper.{wp_savt}
use netdisk4tc.Disk.Keyed.{Keyed}
use netdisk4tc.Ui.Named.{Shows, newdisk_proc-Shows}
use netdisk4tc.Wrapper.Named.{Stored, wp_savt-Stored}

module _ {ℓ} {S : Type ℓ} (profile : Profile S) (behind : Str → Block) (ctow : Str → Str)
    (my_dir : Str) (kinds : List DiskEntry) where
  -- A message to the dialog, or a script's call of `savt`.
  pub data Step : Type 0 where
    dialog : Message → Answers → Step
    save_token : Option (Str × Str) → Step

  abbrev pub step : Step → Disks × S → Run (Disks × S)
  step (dialog message answers) (disks, s) = do
    r ← newdisk_proc profile behind my_dir kinds disks message answers s
    ok (r.disks, r.store)
  step (save_token arguments) (disks, s) = do
    (_, disks', s') ← wp_savt profile ctow my_dir disks arguments s
    ok (disks', s')

  abbrev pub run_steps : List Step → Disks × S → Run (Disks × S)
  run_steps [] state = ok state
  run_steps (x ∷ xs) state = do state' ← step x state; run_steps xs state'

  -- The user lets no disk be overwritten.
  abbrev pub Careful : List Step → Type 0
  Careful [] = Unit
  Careful (dialog message answers ∷ xs) = (answers.overwrite ≡ false) × Careful xs
  Careful (save_token arguments ∷ xs) = Careful xs

  -- A run that faults, or ends with disks under their nicknames.
  abbrev pub Names : Run (Disks × S) → Type 0
  Names fault = Unit
  Names (ok (disks, s)) = Keyed disks.first

  Names-bind :
      (m : Run (Disks × S)) (f : Disks × S → Run (Disks × S))
      → Names m
      → ((disks : Disks) (s : S) → Keyed disks.first → Names (f (disks, s)))
      → Names (m >>= f)
  Names-bind fault f h k = tt
  Names-bind (ok (disks, s)) f h k = k disks s h

  first-Careful : (x : Step) (xs : List Step) → Careful (x ∷ xs) → Careful (x ∷ [])
  first-Careful (dialog _ _) xs (refused, _) = (refused, tt)
  first-Careful (save_token _) xs careful = tt

  later-Careful : (x : Step) (xs : List Step) → Careful (x ∷ xs) → Careful xs
  later-Careful (dialog _ _) xs (_, careful) = careful
  later-Careful (save_token _) xs careful = careful

  step-Names :
      (x : Step) (disks : Disks) (s : S)
      → Careful (x ∷ [])
      → Keyed disks.first
      → Names (step x (disks, s))
  step-Names (dialog message answers) disks s (refused, _) w =
      dialogs (newdisk_proc profile behind my_dir kinds disks message answers s)
        (newdisk_proc-Shows profile behind my_dir kinds disks message answers s w refused)
    where
      dialogs :
          (m : Run (Handled S))
          → Shows profile behind my_dir kinds m
          → Names (m >>= λ (r : Handled S). ok (r.disks, r.store))
      dialogs fault h = tt
      dialogs (ok r) h = h
  step-Names (save_token arguments) disks s careful w =
      saves (wp_savt profile ctow my_dir disks arguments s)
        (wp_savt-Stored profile ctow my_dir disks arguments s w)
    where
      saves :
          (m : Run (Bool × Disks × S))
          → Stored profile ctow my_dir m
          → Names (m >>= λ (x : Bool × Disks × S). ok (x.1, x.2))
      saves fault h = tt
      saves (ok r) h = h

  -- Whatever the messages to the dialog and the calls of `savt`, in any order: where each disk's
  -- nickname is the key under which it is found, and the user lets no disk be overwritten, each
  -- disk's nickname is its key afterwards, if no call faults.
  pub run_steps-Names :
      (xs : List Step) (disks : Disks) (s : S)
      → Careful xs
      → Keyed disks.first
      → Names (run_steps xs (disks, s))
  run_steps-Names [] disks s careful w = w
  run_steps-Names (x ∷ xs) disks s careful w =
      Names-bind (step x (disks, s)) (run_steps xs)
        (step-Names x disks s (first-Careful x xs careful) w)
        (λ (disks' : Disks) (s' : S) (w' : Keyed disks'.first).
          run_steps-Names xs disks' s' (later-Careful x xs careful) w')
