-- ===== src/Ui/Named.antt =====
-- `NewdiskProc` keeps each disk under its nickname.
use mathlib.Core.Bool.{true≢false}
use netdisk4tc.Base.{
  ap, sym, ◌∙◌, ◌+◌, Option-cases, if◌then◌else◌, ℕ, ◌≡◌, refl, Bool, true, false, Bool-cases, inl,
  inr, Option, none, some, List, [], ◌∷◌, ◌++◌, Str, eq_str, Run, ok, fault, ◌>>=◌,
}
use netdisk4tc.Utility.{Block}
use netdisk4tc.Dictionary.{DictEntry, find_entry, dict_exists, all_succeed}
use netdisk4tc.Dictionary.Insert.{set-absent}
use netdisk4tc.Disk.{Disk, DiskEntry, DiskDestroyer, Disks, ndisk_destroy_s}
use netdisk4tc.Disk.Store.{Profile, ndisks_save}
use netdisk4tc.Ui.{
  Answers, Message, init_dialog, button_register, button_ok, button_cancel, other, Handled,
  dialog_text, ended_ok, field_text, nickname_of, kind_index, new_disk, unchanged, running,
  add_disk, confirm, newdisk_proc,
}
use netdisk4tc.Disk.Keyed.{Keyed, Keyed-append}

abbrev found_or_not : Option (DictEntry Disk DiskDestroyer) → Bool
found_or_not none = false
found_or_not (some _) = true

find_entry-absent :
    (disks : Disks) (k : Str) → dict_exists disks k ≡ false → find_entry k disks.first ≡ none
unfolding dict_exists
find_entry-absent disks k h = elim (Option-cases (find_entry k disks.first)) [
  | inl absent ↦ absent
  | inr (e, found) ↦ absurd (true≢false (sym (ap found_or_not found) ∙ h))
]

module _ {ℓ} {S : Type ℓ} (profile : Profile S) (behind : Str → Block) (my_dir : Str)
    (kinds : List DiskEntry) where
  abbrev pub Shows : Run (Handled S) → Type 0
  Shows fault = Unit
  Shows (ok r) = Keyed r.disks.first

  Shows-bind {κ} :
      {A : Type κ} (m : Run A) (f : A → Run (Handled S)) → ((a : A) → Shows (f a)) → Shows (m >>= f)
  Shows-bind fault f h = tt
  Shows-bind (ok a) f h = h a

  abbrev entry : Str → Disk → DictEntry Disk DiskDestroyer
  entry nickname disk = record {
    key = nickname;
    size = 20;
    value = some disk;
    destroyer = some ndisk_destroy_s;
  }

  abbrev grown : Disks → Str → Disk → Disks
  grown disks nickname disk = record {
    first = disks.first ++ (entry nickname disk ∷ []);
    length = disks.length + 1;
  }

  add_disk-Shows :
      (disks : Disks) (text username nickname : Str) (s : S)
      → Keyed disks.first
      → find_entry nickname disks.first ≡ none
      → Shows
          (add_disk profile behind my_dir disks (new_disk kinds text username nickname) nickname s)
  unfolding new_disk
  add_disk-Shows disks text username nickname s w absent =
      rw
        (set-absent disks nickname (new_disk kinds text username nickname) 20 (some ndisk_destroy_s)
          all_succeed absent)
        (Shows-bind
          (ndisks_save profile my_dir
            (some (grown disks nickname (new_disk kinds text username nickname))) s)
          (λ (s' : S). ok (record {
            code = 0;
            ended = ended_ok;
            disks = grown disks nickname (new_disk kinds text username nickname);
            store = s';
            opened = [];
          }))
          (λ (s' : S).
            Keyed-append disks.first (entry nickname (new_disk kinds text username nickname)) w
              ((_, refl, refl), tt)))

  abbrev added_or_refused : Disks → Answers → S → Str → Str → Run (Handled S)
  added_or_refused disks a s username nickname =
      if dict_exists disks nickname
      then (if a.overwrite
          then add_disk profile behind my_dir disks
              (new_disk kinds (dialog_text a.kind) username nickname) nickname s
          else unchanged profile behind 1 running disks s [])
      else add_disk profile behind my_dir disks
          (new_disk kinds (dialog_text a.kind) username nickname) nickname s

  added_or_refused-Shows :
      (disks : Disks) (a : Answers) (s : S) (username nickname : Str)
      → Keyed disks.first
      → a.overwrite ≡ false
      → Shows (added_or_refused disks a s username nickname)
  added_or_refused-Shows disks a s username nickname w refused =
      elim (Bool-cases (dict_exists disks nickname)) [
        | inl held ↦ rw (held, refused) w
        | inr absent ↦ rw (absent) (
            add_disk-Shows disks (dialog_text a.kind) username nickname s w
              (find_entry-absent disks nickname absent))
      ]

  confirm-Shows :
      (disks : Disks) (a : Answers) (s : S) (username : Str)
      → Keyed disks.first
      → a.overwrite ≡ false
      → Shows (confirm profile behind my_dir kinds disks a s username)
  confirm-Shows disks a s username w refused = elim (Bool-cases (eq_str username [])) [
    | inl empty ↦ rw (empty) w
    | inr given ↦ rw (given) (
        Shows-bind (field_text behind a.title)
          (λ (title : ℕ × Str).
            nickname_of kinds (kind_index (dialog_text a.kind) kinds) username title
            >>= added_or_refused disks a s username)
          (λ (title : ℕ × Str).
            Shows-bind (nickname_of kinds (kind_index (dialog_text a.kind) kinds) username title)
              (added_or_refused disks a s username)
              (λ (nickname : Str). added_or_refused-Shows disks a s username nickname w refused)))
  ]

  pub newdisk_proc-Shows :
      (disks : Disks) (message : Message) (a : Answers) (s : S)
      → Keyed disks.first
      → a.overwrite ≡ false
      → Shows (newdisk_proc profile behind my_dir kinds disks message a s)
  unfolding newdisk_proc
  newdisk_proc-Shows disks init_dialog a s w refused = w
  newdisk_proc-Shows disks button_register a s w refused = w
  newdisk_proc-Shows disks button_ok a s w refused =
      Shows-bind (field_text behind a.username)
        (λ (user : ℕ × Str). confirm profile behind my_dir kinds disks a s user.1)
        (λ (user : ℕ × Str). confirm-Shows disks a s user.1 w refused)
  newdisk_proc-Shows disks button_cancel a s w refused = w
  newdisk_proc-Shows disks other a s w refused = w
