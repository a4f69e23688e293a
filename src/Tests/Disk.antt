-- ===== src/Tests/Disk.antt =====
-- Paths, and a store of one file in memory.
use netdisk4tc.Base.{
  ℕ, zero, suc, ◌≡◌, refl, ap, ◌&&◌, Option, none, some, List, [], ◌∷◌, ◌++◌, length, if◌then◌else◌,
  arith, Str, codes, eq_str, eq_str_refl, eq_str_comm, ok, fault, ◌>>=◌,
}
use netdisk4tc.Dictionary.{dict_initialize, dict_get_element_s}
use netdisk4tc.Disk.{Disk, DiskEntry, Disks, ndisk_ok, ndisk_parse, find_kind}
use netdisk4tc.Disk.Path.{IsName, path_of, ndisk_parse-path, ndisk_parse-overflows}
use netdisk4tc.Disk.Store.{Profile, ndisks_save, ndisks_load}
use netdisk4tc.Disk.Saved.{
  lower, listed, text_of, names_text, IsProfile, Config, disks_of, restored, IsConfig,
}
use netdisk4tc.Disk.RoundTrip.{ndisks_load-ndisks_save}

-- The names of the sections, and the text of each key.
abbrev pub Memory : Type 0
Memory = List Str × (Str → Str → Str)

abbrev pub memory : Profile Memory
memory = record {
  write_string = λ (f n k : Str) (v : Option Str) (s : Memory). (
    if listed eq_str n s.0 then s.0 else s.0 ++ (n ∷ []),
    λ (n' k' : Str). if eq_str n n' && eq_str (lower k) (lower k') then text_of v else s.1 n' k',
  );
  section_names = λ (f : Str) (size : ℕ) (s : Memory). names_text s.0 ++ (0 ∷ []);
  get_string = λ (f n k : Str) (size : ℕ) (s : Memory). s.1 n k;
  delete_file = λ (f : Str) (s : Memory). ([], λ _ _. []);
}

unfoldable pub memory-IsProfile : IsProfile memory
memory-IsProfile = record {
  sections = λ (f : Str) (s : Memory). s.0;
  same = eq_str;
  same_refl = eq_str_refl;
  same_comm = eq_str_comm;
  sections_deleted = λ f s. refl;
  sections_new = λ f n k v s p p' h. rw (h);
  sections_old = λ f n k v s p p' h. rw (h);
  names_buffer = λ f size s h. ([], refl);
  get_written = λ f n k v size s p p' h. rw (eq_str_refl n, eq_str_refl (lower k));
  get_other_section = λ f m n k k' v size s p p' h. rw (h);
  get_other_key = λ f n k k' v size s p p' h. rw (h, eq_str_refl n);
}

abbrev pub disk_1 : Config
disk_1 = record {
  nickname = codes "work";
  type = codes "kanbox";
  username = codes "ann";
  token = none;
  secret = some (codes "s3");
}

abbrev pub disk_2 : Config
disk_2 = record {
  nickname = codes "home";
  type = codes "vdisk";
  username = codes "bob";
  token = some (codes "t==");
  secret = none;
}

pub disk_1-IsConfig : IsConfig disk_1
disk_1-IsConfig = record {
  nickname_plain = (refl, (refl, (refl, (refl, tt))));
  nickname_ne = cc;
  type_plain = (refl, (refl, (refl, (refl, (refl, (refl, tt))))));
  type_ne = cc;
  type_fits = omega arith;
  username_plain = (refl, (refl, (refl, tt)));
  username_ne = cc;
  username_fits = omega arith;
  token_plain = tt;
  token_fits = omega arith;
  secret_plain = (refl, (refl, tt));
  secret_fits = omega arith;
}

pub disk_2-IsConfig : IsConfig disk_2
disk_2-IsConfig = record {
  nickname_plain = (refl, (refl, (refl, (refl, tt))));
  nickname_ne = cc;
  type_plain = (refl, (refl, (refl, (refl, (refl, tt)))));
  type_ne = cc;
  type_fits = omega arith;
  username_plain = (refl, (refl, (refl, tt)));
  username_ne = cc;
  username_fits = omega arith;
  token_plain = (refl, (refl, (refl, tt)));
  token_fits = omega arith;
  secret_plain = tt;
  secret_fits = omega arith;
}

-- A directory, and a store that holds something else.
abbrev pub my_dir : Str
my_dir = codes "C:/nd/"

abbrev pub used : Memory
used = (codes "old" ∷ [], λ _ _. codes "x")

ndisks_load-ndisks_save_example :
    (do
      s' ← ndisks_save memory my_dir (some (disks_of (disk_1 ∷ disk_2 ∷ []))) used
      ndisks_load memory my_dir (some dict_initialize) s')
    ≡ ok (some (disks_of (restored disk_1 ∷ restored disk_2 ∷ [])))
unfolding memory-IsProfile eq_str
ndisks_load-ndisks_save_example =
    ndisks_load-ndisks_save memory memory-IsProfile my_dir disk_1 (disk_2 ∷ []) used
      (disk_1-IsConfig, (disk_2-IsConfig, tt)) (refl, (refl, tt)) (omega arith) (omega arith)

abbrev kinds : List DiskEntry
kinds =
    record { name = codes "vdisk"; description = codes "V"; signin = codes "v.net" }
    ∷ record { name = codes "kanbox"; description = codes "K"; signin = codes "k.net" }
    ∷ []

abbrev disks : Disks
disks = disks_of (disk_1 ∷ disk_2 ∷ [])

abbrev pub disk_value : Disk
disk_value = record {
  type = some (codes "kanbox");
  username = some (codes "ann");
  nickname = some (codes "work");
  token = none;
  secret = some (codes "s3");
}

-- The name `work`, followed by a path.
abbrev below : Str
below = b'\\' ∷ codes "a"

ndisk_parse-path_example :
    ndisk_parse kinds disks (some (path_of (codes "work") below))
    ≡ ok (record {
      code = ndisk_ok;
      entry =
          some (record { name = codes "kanbox"; description = codes "K"; signin = codes "k.net" });
      disk = some (some disk_value);
      s_path = some below;
    })
unfolding dict_get_element_s find_kind eq_str
ndisk_parse-path_example =
    ndisk_parse-path kinds disks (codes "work") below disk_value
      (record { name = codes "kanbox"; description = codes "K"; signin = codes "k.net" })
      (omega arith, (omega arith, (omega arith, (omega arith, tt)))) refl (cc) (omega arith) refl
      refl

-- `n` times the character `x`.
abbrev long : ℕ → Str
long zero = []
long (suc n) = 120 ∷ long n

long-IsName : (n : ℕ) → IsName (long n)
long-IsName zero = tt
long-IsName (suc n) = (omega arith, long-IsName n)

length-long : (n : ℕ) → length (long n) ≡ n
length-long zero = refl
length-long (suc n) = ap suc (length-long n)

ndisk_parse-overflows_example : ndisk_parse kinds disks (some (path_of (long 300) [])) ≡ fault
ndisk_parse-overflows_example =
    ndisk_parse-overflows kinds disks (long 300) [] (long-IsName 300) tt
      (omega (arith, length-long 300))
