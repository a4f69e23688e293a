-- ===== src/Wrapper/Named.antt =====
-- `wp_savt` keeps each disk under its nickname.

use netdisk4tc.Base.{
  refl, Bool, true, Bool-cases, inl, inr, Option, none, some, List, [], ◌∷◌, Str, eq_str, Run, ok,
  fault, ◌>>=◌,
}
use netdisk4tc.Dictionary.{DictEntry, Status, dict_ok, dict_fatal, dict_miss, dict_get_element_s}
use netdisk4tc.Disk.{Disk, DiskDestroyer, Disks}
use netdisk4tc.Disk.Store.{Profile, ndisks_save}
use netdisk4tc.Wrapper.{store_token, token_saved, wp_savt}
use netdisk4tc.Disk.Keyed.{Keyed}

store_token-Keyed :
    (key token : Str) (es : List (DictEntry Disk DiskDestroyer))
    → Keyed es
    → Keyed (store_token key token es)
unfolding store_token
store_token-Keyed key token [] w = tt
store_token-Keyed key token (e ∷ es) ((d, is, called), w) = elim (Bool-cases (eq_str key e.key)) [
  | inl found ↦ rw (found, is) ((record d { token = some token }, refl, called), w)
  | inr missed ↦ rw (missed) ((d, is, called), store_token-Keyed key token es w)
]

module _ {ℓ} {S : Type ℓ} (profile : Profile S) (ctow : Str → Str) (my_dir : Str) where
  abbrev with_token : Disks → Str → Str → Disks
  with_token disks key token = record disks { first = store_token key token disks.first }

  abbrev pub Stored : Run (Bool × Disks × S) → Type 0
  Stored fault = Unit
  Stored (ok (_, disks, _)) = Keyed disks.first

  Stored-bind {κ} :
      {A : Type κ} (m : Run A) (f : A → Run (Bool × Disks × S))
      → ((a : A) → Stored (f a))
      → Stored (m >>= f)
  Stored-bind fault f h = tt
  Stored-bind (ok a) f h = h a

  token_saved-Stored :
      (disks : Disks) (key token : Str) (s : S) (found : Status × Option Disk)
      → Keyed disks.first
      → Stored (token_saved profile my_dir disks key token s found)
  token_saved-Stored disks key token s (dict_ok, none) w = tt
  token_saved-Stored disks key token s (dict_ok, some d) w =
      Stored-bind (ndisks_save profile my_dir (some (with_token disks key token)) s)
        (λ (s' : S). ok (true, with_token disks key token, s'))
        (λ (s' : S). store_token-Keyed key token disks.first w)
  token_saved-Stored disks key token s (dict_fatal, _) w = w
  token_saved-Stored disks key token s (dict_miss, _) w = w

  pub wp_savt-Stored :
      (disks : Disks) (arguments : Option (Str × Str)) (s : S)
      → Keyed disks.first
      → Stored (wp_savt profile ctow my_dir disks arguments s)
  unfolding wp_savt
  wp_savt-Stored disks none s w = w
  wp_savt-Stored disks (some (key, token)) s w =
      token_saved-Stored disks (ctow key) (ctow token) s (dict_get_element_s disks (ctow key) none)
        w
