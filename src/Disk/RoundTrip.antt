-- ===== src/Disk/RoundTrip.antt =====
-- `ndisks_load` behind `ndisks_save`.
use netdisk4tc.Base.{
  ℕ, suc, ◌+◌, ◌-◌, ◌<◌, ◌≡◌, refl, sym, ap, ◌∙◌, Bool, true, false, ◌||◌, ◌==◌, none, some, List,
  [], ◌∷◌, ◌++◌, map, append-nil, append_assoc, length, arith, Str, eq_str, eq_str_ne, Run, ok,
  ◌>>=◌, take-of_length_le,
}
use netdisk4tc.Utility.{Block}
use netdisk4tc.Utility.Trim.{NoNul}
use netdisk4tc.Utility.Copy.{wcslcpy-take}
use netdisk4tc.Http.Text.{wcscat_s-ok}
use netdisk4tc.Dictionary.{DictEntry, dict_initialize, find_entry, all_succeed}
use netdisk4tc.Dictionary.Chain.{find_entry-append}
use netdisk4tc.Dictionary.Insert.{set-absent}
use netdisk4tc.Disk.{Disk, DiskDestroyer, Disks, ndisk_destroy_s, path_max}
use netdisk4tc.Disk.Store.{
  Profile, config_file, config_path, sections_buffer_size, load_section, load_names, ndisks_save,
  ndisks_load,
}
use netdisk4tc.Disk.Saved.{
  Plain, listed, text_of, names_text, IsProfile, Config, entry_of, disks_of, restored, IsConfig,
  AreConfigs, nicknames, Distinct,
}
use netdisk4tc.Disk.Buffer.{Names, load_all, load_names-all}
use netdisk4tc.Disk.Restart.{
  write_disk, write_disks, traverse-write_disks, sections-write_disk, Holds, AllHold,
  write_disks-AllHold,
}

-- Names that are not listed, and names that no entry has.
abbrev Fresh : (Str → Str → Bool) → List Str → List Str → Type 0
Fresh same [] ms = Unit
Fresh same (n ∷ ns) ms = (listed same n ms ≡ false) × Fresh same ns ms

abbrev Absent : List Str → List (DictEntry Disk DiskDestroyer) → Type 0
Absent [] es = Unit
Absent (n ∷ ns) es = (find_entry n es ≡ none) × Absent ns es

module _ (same : Str → Str → Bool) (same_comm : (m n : Str) → same m n ≡ same n m) where
  listed-concat :
      (n m : Str) (ms : List Str) → listed same n (ms ++ (m ∷ [])) ≡ (listed same n ms || same n m)
  listed-concat n m [] = ground arith
  listed-concat n m (x ∷ ms) = ground (arith, listed-concat n m ms)

  Fresh-concat :
      (m : Str) (ns ms : List Str)
      → listed same m ns ≡ false
      → Fresh same ns ms
      → Fresh same ns (ms ++ (m ∷ []))
  Fresh-concat m [] ms h fresh = tt
  Fresh-concat m (n ∷ ns) ms h (fresh, w) = (
    rw (listed-concat n m ms, fresh, same_comm n m) (ground arith),
    Fresh-concat m ns ms (ground arith) w,
  )

  Fresh-nil : (ns : List Str) → Fresh same ns []
  Fresh-nil [] = tt
  Fresh-nil (n ∷ ns) = (refl, Fresh-nil ns)

  module _ (same_refl : (n : Str) → same n n ≡ true) where
    key-ne : (m n : Str) → same m n ≡ false → eq_str n m ≡ false
    key-ne m n h =
        eq_str_ne n m (λ (e : n ≡ m). absurd (let r : same n n ≡ true = same_refl n in cc))

    Absent-concat :
        (e : DictEntry Disk DiskDestroyer) (ns : List Str)
        (es : List (DictEntry Disk DiskDestroyer))
        → listed same e.key ns ≡ false
        → Absent ns es
        → Absent ns (es ++ (e ∷ []))
    unfolding find_entry
    Absent-concat e [] es h absent = tt
    Absent-concat e (n ∷ ns) es h (absent, w) = (
      rw (find_entry-append n es (e ∷ []), absent, key-ne e.key n (ground arith)),
      Absent-concat e ns es (ground arith) w,
    )

Absent-nil : (ns : List Str) → Absent ns []
unfolding find_entry
Absent-nil [] = tt
Absent-nil (n ∷ ns) = (refl, Absent-nil ns)

Plain-NoNul : (s : Str) → Plain s → NoNul s
Plain-NoNul [] _ = tt
Plain-NoNul (c ∷ s) (h, hs) = (ground arith, Plain-NoNul s hs)

Names-nicknames : (cs : List Config) → AreConfigs cs → Names (nicknames cs)
Names-nicknames [] _ = tt
Names-nicknames (c ∷ cs) (w, ws) =
    (w.nickname_ne, Plain-NoNul c.nickname w.nickname_plain, Names-nicknames cs ws)

length-restored : (cs : List Config) → 0 + length cs ≡ length (map restored cs)
length-restored [] = omega arith
length-restored (c ∷ cs) = omega (arith, length-restored cs)

succ_ne : (n : ℕ) → (suc n == 0) ≡ false
succ_ne n = ground arith

disks-eq :
    {es fs : List (DictEntry Disk DiskDestroyer)} {m n : ℕ}
    → es ≡ fs
    → m ≡ n
    → ◌≡◌ {A = Run Disks}
        (ok (record { first = es; length = m }))
        (ok (record { first = fs; length = n }))
disks-eq p q = λ i. ok (record { first = p i; length = q i })

pub config_path-ok :
    (my_dir : Str) (size : ℕ)
    → length my_dir + length config_file < size
    → config_path my_dir size ≡ ok (my_dir ++ config_file)
config_path-ok my_dir size fits = rw (
  wcslcpy-take size my_dir size (omega arith) (omega arith),
  take-of_length_le (size - 1) my_dir (omega arith),
  wcscat_s-ok my_dir size config_file (omega arith),
)

module _ {ℓ} {S : Type ℓ} (profile : Profile S) (is : IsProfile profile) (file : Str) where
  sections-write_disks :
      (cs : List Config) (s : S)
      → AreConfigs cs
      → Distinct is.same (nicknames cs)
      → Fresh is.same (nicknames cs) (is.sections file s)
      → is.sections file (write_disks profile is file cs s) ≡ is.sections file s ++ nicknames cs
  sections-write_disks [] s _ _ _ = sym (append-nil (is.sections file s))
  sections-write_disks (c ∷ cs) s (w, ws) (h, hs) (fresh, freshs) =
      let one = sections-write_disk profile is file c s w fresh in
      sections-write_disks cs (write_disk profile is file c s) ws hs (
        rw (one) (
          Fresh-concat is.same is.same_comm c.nickname (nicknames cs) (is.sections file s) h
            freshs))
      ∙ ap (λ (ns : List Str). ns ++ nicknames cs) one
      ∙ append_assoc (is.sections file s) (c.nickname ∷ []) (nicknames cs)

  load_section-Holds :
      (c : Config) (s : S) (d : Disks)
      → IsConfig c
      → Holds profile is file c s
      → find_entry c.nickname d.first ≡ none
      → load_section profile file s c.nickname d
        ≡ ok (record { first = d.first ++ (entry_of (restored c) ∷ []); length = d.length + 1 })
  unfolding load_section
  load_section-Holds c s d w held absent = rw (
    held.type_held,
    held.username_held,
    held.token_held,
    held.secret_held,
    eq_str_ne c.type [] w.type_ne,
    eq_str_ne c.username [] w.username_ne,
    set-absent d c.nickname
        (record {
          type = some c.type;
          username = some c.username;
          nickname = some c.nickname;
          token = some (text_of c.token);
          secret = some (text_of c.secret);
        })
        20 (some ndisk_destroy_s) all_succeed absent,
  )

  load_all-Holds :
      (cs : List Config) (s : S) (d : Disks)
      → AreConfigs cs
      → Distinct is.same (nicknames cs)
      → AllHold profile is file cs s
      → Absent (nicknames cs) d.first
      → load_all profile file s (nicknames cs) d
        ≡ ok (record {
          first = d.first ++ map entry_of (map restored cs);
          length = d.length + length cs;
        })
  load_all-Holds [] s d _ _ _ _ =
      disks-eq (sym (append-nil d.first)) (let m : ℕ = d.length in omega arith)
  load_all-Holds (c ∷ cs) s d (w, ws) (h, hs) (held, helds) (absent, absents) =
      rw
        (
          load_section-Holds c s d w held absent,
          load_all-Holds cs s
              (record { first = d.first ++ (entry_of (restored c) ∷ []); length = d.length + 1 }) ws
              hs helds
              (Absent-concat is.same is.same_comm is.same_refl (entry_of (restored c))
                (nicknames cs) d.first h absents),
          append_assoc d.first (entry_of (restored c) ∷ []) (map entry_of (map restored cs)),
        )
        (disks-eq refl (let m : ℕ = d.length in omega arith))

  load_names-buffer :
      (cs : List Config) (s : S) (b rest : Block) (d : Disks)
      → AreConfigs cs
      → b ≡ names_text (nicknames cs) ++ (0 ∷ rest)
      → load_names profile file s b d ≡ load_all profile file s (nicknames cs) d
  load_names-buffer cs s b rest d w h =
      rw (h) (load_names-all profile file s (nicknames cs) rest d (Names-nicknames cs w))

module _ {ℓ} {S : Type ℓ} (profile : Profile S) (is : IsProfile profile) where
  save-ok :
      (my_dir : Str) (c : Config) (cs : List Config) (s : S)
      → length my_dir + length config_file < path_max
      → ndisks_save profile my_dir (some (disks_of (c ∷ cs))) s
        ≡ ok (
            write_disks profile is
              (my_dir ++ config_file)
              (c ∷ cs)
              (profile.delete_file (my_dir ++ config_file) s))
  unfolding ndisks_save
  save-ok my_dir c cs s fits =
      rw (succ_ne (length cs), config_path-ok my_dir path_max fits)
        (traverse-write_disks profile is (my_dir ++ config_file) (c ∷ cs)
          (profile.delete_file (my_dir ++ config_file) s))

  load-ok :
      (my_dir : Str) (cs : List Config) (s : S)
      → AreConfigs cs
      → Distinct is.same (nicknames cs)
      → length (names_text (nicknames cs)) < sections_buffer_size
      → length my_dir + length config_file < path_max
      → is.sections (my_dir ++ config_file) s ≡ nicknames cs
      → AllHold profile is (my_dir ++ config_file) cs s
      → ndisks_load profile my_dir (some dict_initialize) s ≡ ok (some (disks_of (map restored cs)))
  unfolding ndisks_load dict_initialize
  load-ok my_dir cs s w distinct names_fit path_fits names held =
      let buffer =
        is.names_buffer (my_dir ++ config_file) sections_buffer_size s (rw (names) names_fit) in
      rw
        (
          config_path-ok my_dir sections_buffer_size (omega arith),
          load_names-buffer profile is (my_dir ++ config_file) cs s
              (profile.section_names (my_dir ++ config_file) sections_buffer_size s) buffer.0
              dict_initialize w
              (buffer.1 ∙ ap (λ (ns : List Str). names_text ns ++ (0 ∷ buffer.0)) names),
          load_all-Holds profile is (my_dir ++ config_file) cs s dict_initialize w distinct held
              (Absent-nil (nicknames cs)),
        )
        (λ i.
          ok (
            some
              (record { first = map entry_of (map restored cs); length = length-restored cs i })))

  -- Disks with plain texts, that is ASCII without control characters, blanks, quotes and brackets,
  -- each shorter than 4096 characters, and none of nickname, kind and user's name empty, whose names differ for the store and whose names together fit into the
  -- buffer, and a path of the configuration file that fits: what `ndisks_save` stores,
  -- `ndisks_load` brings back into an empty dictionary, all disks in their order, with the empty
  -- text for a token or secret that was `NULL`, whatever the file held before.
  pub ndisks_load-ndisks_save :
      (my_dir : Str) (c : Config) (cs : List Config) (s : S)
      → AreConfigs (c ∷ cs)
      → Distinct is.same (nicknames (c ∷ cs))
      → length (names_text (nicknames (c ∷ cs))) < sections_buffer_size
      → length my_dir + length config_file < path_max
      → (do
        s' ← ndisks_save profile my_dir (some (disks_of (c ∷ cs))) s
        ndisks_load profile my_dir (some dict_initialize) s')
        ≡ ok (some (disks_of (map restored (c ∷ cs))))
  ndisks_load-ndisks_save my_dir c cs s w distinct names_fit path_fits =
      let f : Str = my_dir ++ config_file in
      let t : S = profile.delete_file f s in
      rw (save-ok my_dir c cs s path_fits) (
        load-ok my_dir (c ∷ cs) (write_disks profile is f (c ∷ cs) t) w distinct names_fit path_fits
          (sections-write_disks profile is f (c ∷ cs) t w distinct
              (rw (is.sections_deleted f s) (Fresh-nil is.same is.same_comm (nicknames (c ∷ cs))))
            ∙ ap (λ (ns : List Str). ns ++ nicknames (c ∷ cs)) (is.sections_deleted f s))
          (write_disks-AllHold profile is f (c ∷ cs) t w distinct))
