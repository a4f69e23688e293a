-- ===== src/Disk/Path.antt =====
-- `ndisk_parse` on every path.
use netdisk4tc.Base.{
  ℕ, suc, ◌+◌, ◌-◌, ◌<◌, ◌≤◌, ◌≡◌, ◌≢◌, refl, ◌⊎◌, inl, inr, false, Option, none, some, List, [],
  ◌∷◌, ◌++◌, length, take, drop, length-append, take-append, drop-append, arith, Str, eq_str,
  eq_str_ne, ok, fault,
}
use netdisk4tc.Crt.{wcscpy_s}
use netdisk4tc.Utility.{wcslcpy}
use netdisk4tc.Utility.Copy.{wcslcpy-take, wcslcpy-overflows}
use netdisk4tc.Dictionary.{dict_ok, dict_miss, dict_get_element_s}
use netdisk4tc.Disk.{
  DiskEntry, Disk, Disks, path_max, root, name_end, find_kind, parsed_kind, Parsed, unparsed,
  ndisk_ok, ndisk_fatal, ndisk_parse,
}

-- A name that holds no backslash, and a path that goes on behind a name.
abbrev pub IsName : Str → Type 0
IsName [] = Unit
IsName (c ∷ s) = (c ≢ b'\\') × IsName s

abbrev pub IsRest : Str → Type 0
IsRest [] = Unit
IsRest (c ∷ s) = c ≡ b'\\'

name_end-append :
    (name rest : Str) → IsName name → IsRest rest → name_end (name ++ rest) ≡ length name
unfolding name_end
name_end-append [] [] _ _ = refl
name_end-append [] (c ∷ rest) _ h = ground arith
name_end-append (c ∷ name) rest (h, hs) r = ground (arith, name_end-append name rest hs r)

-- What `sPath` gets.
abbrev pub sub_path : Str → Str
sub_path [] = root
sub_path (c ∷ s) = take (path_max - 1) (c ∷ s)

abbrev pub path_of : Str → Str → Str
path_of name rest = b'\\' ∷ (name ++ rest)

pub path_of-ne_root : (name rest : Str) → name ≢ [] → eq_str (path_of name rest) root ≡ false
path_of-ne_root [] rest h = absurd (h refl)
path_of-ne_root (c ∷ name) rest h = eq_str_ne (path_of (c ∷ name) rest) root cc

pred : (n : ℕ) → n + 1 - 1 ≡ n
pred n = omega arith

copied_name :
    (name rest : Str)
    → IsName name
    → IsRest rest
    → length name < path_max
    → wcslcpy path_max (name ++ rest) (name_end (name ++ rest) + 1) ≡ ok name
copied_name name rest hn hr fits = rw (
  name_end-append name rest hn hr,
  wcslcpy-take path_max (name ++ rest) (length name + 1) (omega arith) (omega arith),
  pred (length name),
  take-append name rest,
)

add_one : (n : ℕ) → n + 1 ≡ suc n
add_one n = omega arith

long_ne : (s : Str) → path_max ≤ length s → s ≢ []
long_ne [] h e = absurd (omega arith)
long_ne (c ∷ s) h e = cc

drop-path : (name rest : Str) → drop (length name + 1) (path_of name rest) ≡ rest
drop-path name rest = rw (add_one (length name), drop-append name rest)

add-sub_path :
    (d : Option Disk) (rest : Str) (kind : DiskEntry)
    → parsed_kind d rest (some kind)
      ≡ ok (record {
        code = ndisk_ok;
        entry = some kind;
        disk = some d;
        s_path = some (sub_path rest);
      })
unfolding wcslcpy wcscpy_s
add-sub_path d [] kind = refl
add-sub_path d (c ∷ rest) kind =
    rw (wcslcpy-take path_max (c ∷ rest) path_max (omega arith) (omega arith))

module _ (kinds : List DiskEntry) (disks : Disks) (name rest : Str) where
  -- The path of a disk, or of something on a disk, whose name fits into the buffer of `PATH_MAX`
  -- characters: where the disk is known and its type is one of the kinds, the call succeeds with
  -- the kind and the disk, and `sPath` is the rest of the path, cut off at `PATH_MAX - 1`
  -- characters, or the root where nothing is left.
  pub ndisk_parse-path :
      (d : Disk) (kind : DiskEntry)
      → IsName name
      → IsRest rest
      → name ≢ []
      → length name < path_max
      → dict_get_element_s disks name none ≡ (dict_ok, some d)
      → find_kind d.type kinds ≡ ok (some kind)
      → ndisk_parse kinds disks (some (path_of name rest))
        ≡ ok (record {
          code = ndisk_ok;
          entry = some kind;
          disk = some (some d);
          s_path = some (sub_path rest);
        })
  unfolding ndisk_parse
  ndisk_parse-path d kind hn hr ne fits found known = rw (
    eq_str_ne (path_of name rest) [] cc,
    path_of-ne_root name rest ne,
    copied_name name rest hn hr fits,
    found,
    known,
    drop-path name rest,
    add-sub_path (some d) rest kind,
  )

  -- A path whose disk is not known, or is of an unknown type, is refused.
  ndisk_parse-unknown :
      IsName name
      → IsRest rest
      → name ≢ []
      → length name < path_max
      → (dict_get_element_s disks name none ≡ (dict_miss, none))
        ⊎ ((d : Disk) × (dict_get_element_s disks name none ≡ (dict_ok, some d))
            × (find_kind d.type kinds ≡ ok none))
      → (r : Parsed) × (ndisk_parse kinds disks (some (path_of name rest)) ≡ ok r)
        × (r.code ≡ ndisk_fatal)
        × (r.s_path ≡ none)
  unfolding ndisk_parse
  ndisk_parse-unknown hn hr ne fits (inl missing) = (
    unparsed none,
    rw (
      eq_str_ne (path_of name rest) [] cc,
      path_of-ne_root name rest ne,
      copied_name name rest hn hr fits,
      missing,
    ),
    refl,
    refl,
  )
  ndisk_parse-unknown hn hr ne fits (inr (d, found, unknown)) = (
    unparsed (some (some d)),
    rw (
      eq_str_ne (path_of name rest) [] cc,
      path_of-ne_root name rest ne,
      copied_name name rest hn hr fits,
      found,
      unknown,
    ),
    refl,
    refl,
  )

  -- A name of `PATH_MAX` or more characters is written past the end of the buffer, whatever disks
  -- there are.
  pub ndisk_parse-overflows :
      IsName name
      → IsRest rest
      → path_max ≤ length name
      → ndisk_parse kinds disks (some (path_of name rest)) ≡ fault
  unfolding ndisk_parse
  ndisk_parse-overflows hn hr long = rw (
    eq_str_ne (path_of name rest) [] cc,
    path_of-ne_root name rest (long_ne name long),
    name_end-append name rest hn hr,
    wcslcpy-overflows path_max (name ++ rest) (length name + 1) (omega arith)
        (omega (arith, length-append name rest)),
  )
