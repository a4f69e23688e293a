-- ===== src/Ui/Added.antt =====
-- The disk that `NewdiskProc` adds, and the store behind it.
use mathlib.Core.Bool.{false≢true}
use mathlib.Core.List.{map-append}
use netdisk4tc.Base.{
  ℕ, ◌+◌, ◌-◌, take-of_length_le, ◌<◌, ◌≡◌, ◌≢◌, refl, sym, ◌∙◌, ap, false, none, some, List, [],
  ◌∷◌, ◌++◌, map, length, length-append, get_elem?, arith, Str, eq_str, eq_str_ne, ok, ◌>>=◌,
  append_assoc,
}
use netdisk4tc.Utility.{Block, is_blank}
use netdisk4tc.Utility.Trim.{Blanks, StartsWord, NoNul, trim_lem}
use netdisk4tc.Dictionary.{find_entry, dict_exists, dict_initialize, all_succeed}
use netdisk4tc.Dictionary.Insert.{set-absent}
use netdisk4tc.Disk.{DiskEntry, Disks, ndisk_destroy_s, path_max}
use netdisk4tc.Disk.Store.{Profile, ndisks_save, ndisks_load, sections_buffer_size, config_file}
use netdisk4tc.Disk.Saved.{
  listed, names_text, IsProfile, Config, entry_of, disks_of, restored, AreConfigs, nicknames,
  Distinct,
}
use netdisk4tc.Disk.RoundTrip.{ndisks_load-ndisks_save}
use netdisk4tc.Ui.{
  input_max, Answers, button_ok, Handled, ended_ok, dialog_text, sized, in_buffer, kind_index,
  field_text, nickname_of, new_disk, newdisk_proc,
}

-- A field's text, which fits into the buffer: a word that begins and ends with a character that is
-- no blank, between blanks.
pub record Padded (text word : Str) : Type 0 where
  pub before : Str
  pub init : Str
  pub last : ℕ
  pub behind : Str
  pub text_eq : text ≡ before ++ (init ++ (last ∷ behind))
  pub word_eq : word ≡ init ++ (last ∷ [])
  pub before_blank : Blanks before
  pub starts : StartsWord (init ++ (last ∷ []))
  pub no_nul : NoNul init
  pub last_no_nul : last ≢ 0
  pub last_word : is_blank last ≡ false
  pub behind_blank : Blanks behind
  pub fits : length text < input_max

block_of :
    {text word : Str} (p : Padded text word) (b : Block)
    → text ++ (0 ∷ b) ≡ p.before ++ (p.init ++ (p.last ∷ (p.behind ++ (0 ∷ b))))
block_of p b =
    ap (λ (t : Str). t ++ (0 ∷ b)) p.text_eq
    ∙ append_assoc p.before (p.init ++ (p.last ∷ p.behind)) (0 ∷ b)
    ∙ ap (λ (t : Str). p.before ++ t) (append_assoc p.init (p.last ∷ p.behind) (0 ∷ b))

dialog_text-fits : (text : Str) → length text < input_max → dialog_text text ≡ text
unfolding dialog_text
dialog_text-fits text h = take-of_length_le (input_max - 1) text (omega arith)

pub field_text_lem :
    (behind : Str → Block) (text word : Str)
    → Padded text word
    → (start : ℕ) × (field_text behind text ≡ ok (start, word))
unfolding field_text in_buffer
field_text_lem behind text word p =
    let rest = sized (input_max - 1 - length text) (behind text) in
    let t =
      trim_lem p.before p.init p.last p.behind rest p.before_blank p.starts p.no_nul p.last_no_nul
        p.last_word p.behind_blank in
    (length p.before, rw (dialog_text-fits text p.fits, block_of p rest, t.1, t.2, p.word_eq))

word-nonempty : (s : Str) (c : ℕ) → eq_str (s ++ (c ∷ [])) [] ≡ false
unfolding eq_str
word-nonempty [] c = refl
word-nonempty (_ ∷ s) c = refl

pub word-ne : (text word : Str) → Padded text word → eq_str word [] ≡ false
word-ne text word p = rw (p.word_eq) (word-nonempty p.init p.last)

-- The disk that the dialog makes.
abbrev pub added : DiskEntry → Str → Str → Config
added kind username nickname = record {
  nickname = nickname;
  type = kind.name;
  username = username;
  token = none;
  secret = none;
}

module _ {ℓ} {S : Type ℓ} (profile : Profile S) (is : IsProfile profile) where
  listed-last :
      (n : Str) (cs : List Config) (c : Config)
      → listed is.same n (nicknames (cs ++ (c ∷ []))) ≡ false
      → is.same n c.nickname ≡ false
  listed-last n [] c h = ground arith
  listed-last n (d ∷ cs) c h = ground (arith, listed-last n cs c)

  different : (m n : Str) → is.same m n ≡ false → eq_str n m ≡ false
  different m n h =
      eq_str_ne n m (λ (e : n ≡ m). absurd (false≢true (sym h ∙ ap (is.same m) e ∙ is.same_refl m)))

  find_entry-Distinct :
      (cs : List Config) (c : Config)
      → Distinct is.same (nicknames (cs ++ (c ∷ [])))
      → find_entry c.nickname (map entry_of cs) ≡ none
  unfolding find_entry
  find_entry-Distinct [] c w = refl
  find_entry-Distinct (d ∷ cs) c (new, w) =
      rw (different d.nickname c.nickname (listed-last d.nickname cs c new))
        (find_entry-Distinct cs c w)

  dict_exists-absent :
      (disks : Disks) (k : Str) → find_entry k disks.first ≡ none → dict_exists disks k ≡ false
  unfolding dict_exists
  dict_exists-absent disks k h = rw (dict_exists, h)

  disks_of-append :
      (cs : List Config) (c : Config)
      → record { first = map entry_of cs ++ (entry_of c ∷ []); length = length cs + 1 }
        ≡ disks_of (cs ++ (c ∷ []))
  disks_of-append cs c = rw (map-append entry_of cs (c ∷ []), length-append cs (c ∷ []))

  pub reload :
      (my_dir : Str) (cs : List Config) (c : Config) (s : S)
      → AreConfigs (cs ++ (c ∷ []))
      → Distinct is.same (nicknames (cs ++ (c ∷ [])))
      → length (names_text (nicknames (cs ++ (c ∷ [])))) < sections_buffer_size
      → length my_dir + length config_file < path_max
      → (do
        s' ← ndisks_save profile my_dir (some (disks_of (cs ++ (c ∷ [])))) s
        ndisks_load profile my_dir (some dict_initialize) s')
        ≡ ok (some (disks_of (map restored (cs ++ (c ∷ [])))))
  reload my_dir [] c s = ndisks_load-ndisks_save profile is my_dir c [] s
  reload my_dir (d ∷ cs) c s = ndisks_load-ndisks_save profile is my_dir d (cs ++ (c ∷ [])) s

  -- The dialog behind the save of the disks.
  abbrev pub done : Disks → S → Handled S
  done disks s' = record { code = 0; ended = ended_ok; disks = disks; store = s'; opened = [] }

  -- The procedure saves the disks with the new one and ends the dialog.
  pub newdisk_proc_lem :
      (behind : Str → Block) (my_dir : Str) (kinds : List DiskEntry) (cs : List Config)
      (kind : DiskEntry) (username nickname : Str) (a : Answers) (s : S)
      → Padded a.username username
      → Padded a.title nickname
      → get_elem? kinds (kind_index (dialog_text a.kind) kinds) ≡ some kind
      → Distinct is.same (nicknames (cs ++ (added kind username nickname ∷ [])))
      → newdisk_proc profile behind my_dir kinds (disks_of cs) button_ok a s ≡ (
          ndisks_save profile my_dir (some (disks_of (cs ++ (added kind username nickname ∷ [])))) s
          >>= λ (s' : S). ok (done (disks_of (cs ++ (added kind username nickname ∷ []))) s'))
  unfolding newdisk_proc nickname_of new_disk dict_exists
  newdisk_proc_lem behind my_dir kinds cs kind username nickname a s user title known distinct =
      let (i, trimmed) = field_text_lem behind a.username username user in
      let (j, titled) = field_text_lem behind a.title nickname title in
      rw
        (
          trimmed,
          titled,
          word-ne a.username username user,
          word-ne a.title nickname title,
          dict_exists-absent (disks_of cs) nickname
              (find_entry-Distinct cs (added kind username nickname) distinct),
          known,
          set-absent (disks_of cs) nickname
              (record {
                type = some kind.name;
                username = some username;
                nickname = some nickname;
                token = none;
                secret = none;
              })
              20 (some ndisk_destroy_s) all_succeed
              (find_entry-Distinct cs (added kind username nickname) distinct),
        )
        (ap (λ (d : Disks). ndisks_save profile my_dir (some d) s >>= λ (s' : S). ok (done d s'))
          (disks_of-append cs (added kind username nickname)))
