-- ===== src/Disk/Saved.antt =====
-- What the profile functions are documented to do, as far as `ndisks_save` and `ndisks_load` rely on
-- it: `IsProfile`. Disks whose texts such a store keeps as they are: `Config` and `IsConfig`.
use netdisk4tc.Base.{
  ℕ, ◌+◌, ◌<◌, ◌≡◌, ◌≢◌, Bool, true, false, ◌&&◌, ◌||◌, not, Option, none, some, List, [], ◌∷◌,
  ◌++◌, if◌then◌else◌, leb, ltb, ◌==◌, length, map, Str, eq_str,
}
use netdisk4tc.Utility.{Block}
use netdisk4tc.Dictionary.{DictEntry}
use netdisk4tc.Disk.{Disk, Disks, DiskDestroyer, ndisk_destroy_s}
use netdisk4tc.Disk.Store.{Profile}

-- The texts that the store gives back as written: ASCII with no control character, blank, quote or
-- bracket. A file that is not there is made without Unicode, and then only characters of the
-- system's ANSI code page are documented to be kept; ASCII is part of each of them.
abbrev pub is_plain_char : ℕ → Bool
is_plain_char c =
    (ltb 32 c && ltb c 127)
    && (not (c == b'"') && (not (c == b'\'') && (not (c == b'[') && not (c == b']'))))

abbrev pub Plain : Str → Type 0
Plain [] = Unit
Plain (c ∷ s) = (is_plain_char c ≡ true) × Plain s

-- Keys are compared without regard to case.
abbrev pub lower : Str → Str
lower [] = []
lower (c ∷ s) = (if leb 65 c && leb c 90 then c + 32 else c) ∷ lower s

-- The names, each with its terminator.
abbrev pub names_text : List Str → Str
names_text [] = []
names_text (n ∷ ns) = n ++ (0 ∷ names_text ns)

abbrev pub listed : (Str → Str → Bool) → Str → List Str → Bool
listed same n [] = false
listed same n (m ∷ ms) = same n m || listed same n ms

abbrev pub text_of : Option Str → Str
text_of none = []
text_of (some s) = s

-- `sections` gives the names of a file's sections, `same` compares names as the store does. The
-- file can be deleted and written.
pub record IsProfile {ℓ} {S : Type ℓ} (profile : Profile S) : Type ℓ where
  pub sections : Str → S → List Str
  pub same : Str → Str → Bool
  pub same_refl : (n : Str) → same n n ≡ true
  pub same_comm : (m n : Str) → same m n ≡ same n m
  pub sections_deleted : (f : Str) (s : S) → sections f (profile.delete_file f s) ≡ []
  pub sections_new :
      (f n k v : Str) (s : S)
      → Plain n
      → Plain v
      → listed same n (sections f s) ≡ false
      → sections f (profile.write_string f n k (some v) s) ≡ sections f s ++ (n ∷ [])
  pub sections_old :
      (f n k : Str) (v : Option Str) (s : S)
      → Plain n
      → Plain (text_of v)
      → listed same n (sections f s) ≡ true
      → sections f (profile.write_string f n k v s) ≡ sections f s
  pub names_buffer :
      (f : Str) (size : ℕ) (s : S)
      → length (names_text (sections f s)) < size
      → (rest : Block) × (profile.section_names f size s ≡ names_text (sections f s) ++ (0 ∷ rest))
  pub get_written :
      (f n k : Str) (v : Option Str) (size : ℕ) (s : S)
      → Plain n
      → Plain (text_of v)
      → length (text_of v) < size
      → profile.get_string f n k size (profile.write_string f n k v s) ≡ text_of v
  pub get_other_section :
      (f m n k k' : Str) (v : Option Str) (size : ℕ) (s : S)
      → Plain m
      → Plain (text_of v)
      → same m n ≡ false
      → profile.get_string f n k' size (profile.write_string f m k v s)
        ≡ profile.get_string f n k' size s
  pub get_other_key :
      (f n k k' : Str) (v : Option Str) (size : ℕ) (s : S)
      → Plain n
      → Plain (text_of v)
      → eq_str (lower k) (lower k') ≡ false
      → profile.get_string f n k' size (profile.write_string f n k v s)
        ≡ profile.get_string f n k' size s

-- A disk as the plugin stores it, under its nickname.
pub record Config : Type 0 where
  pub nickname : Str
  pub type : Str
  pub username : Str
  pub token : Option Str
  pub secret : Option Str

abbrev pub entry_of : Config → DictEntry Disk DiskDestroyer
entry_of c = record {
  key = c.nickname;
  size = 20;
  value = some (record {
    type = some c.type;
    username = some c.username;
    nickname = some c.nickname;
    token = c.token;
    secret = c.secret;
  });
  destroyer = some ndisk_destroy_s;
}

abbrev pub disks_of : List Config → Disks
disks_of cs = record { first = map entry_of cs; length = length cs }

-- The disk behind a restart: a token or secret that was `NULL` is the empty text.
abbrev pub restored : Config → Config
restored c = record c { token = some (text_of c.token); secret = some (text_of c.secret) }

pub record IsConfig (c : Config) : Type 0 where
  pub nickname_plain : Plain c.nickname
  pub nickname_ne : c.nickname ≢ []
  pub type_plain : Plain c.type
  pub type_ne : c.type ≢ []
  pub type_fits : length c.type < 4096
  pub username_plain : Plain c.username
  pub username_ne : c.username ≢ []
  pub username_fits : length c.username < 4096
  pub token_plain : Plain (text_of c.token)
  pub token_fits : length (text_of c.token) < 4096
  pub secret_plain : Plain (text_of c.secret)
  pub secret_fits : length (text_of c.secret) < 4096

abbrev pub AreConfigs : List Config → Type 0
AreConfigs [] = Unit
AreConfigs (c ∷ cs) = IsConfig c × AreConfigs cs

abbrev pub nicknames : List Config → List Str
nicknames [] = []
nicknames (c ∷ cs) = c.nickname ∷ nicknames cs

-- No two names are the same to the store.
abbrev pub Distinct : (Str → Str → Bool) → List Str → Type 0
Distinct same [] = Unit
Distinct same (n ∷ ns) = (listed same n ns ≡ false) × Distinct same ns
