-- ===== src/Disk/Restart.antt =====
-- `ndisks_load` behind `ndisks_save`: what a restart keeps.
use netdisk4tc.Base.{
  ◌<◌, ◌≡◌, refl, ap, ◌∙◌, true, false, Option, some, List, [], ◌∷◌, ◌++◌, map, length, arith, Str,
  codes, eq_str, ok,
}
use netdisk4tc.Dictionary.{traverse_loop}
use netdisk4tc.Disk.Store.{Profile, ndisk_save_enumerator}
use netdisk4tc.Disk.Saved.{
  Plain, lower, listed, text_of, IsProfile, Config, entry_of, IsConfig, AreConfigs, nicknames,
  Distinct,
}

module _ {ℓ} {S : Type ℓ} (profile : Profile S) (is : IsProfile profile) (file : Str) where
  -- What one disk writes, text by text, and what a chain of disks does.
  abbrev put : Config → Str → Option Str → S → S
  put c k v s = profile.write_string file c.nickname k v s

  abbrev after_type : Config → S → S
  after_type c s = put c (codes "type") (some c.type) s

  abbrev after_username : Config → S → S
  after_username c s = put c (codes "username") (some c.username) (after_type c s)

  abbrev after_nickname : Config → S → S
  after_nickname c s = put c (codes "nickname") (some c.nickname) (after_username c s)

  abbrev after_token : Config → S → S
  after_token c s = put c (codes "token") c.token (after_nickname c s)

  abbrev pub write_disk : Config → S → S
  write_disk c s = put c (codes "secret") c.secret (after_token c s)

  abbrev pub write_disks : List Config → S → S
  write_disks [] s = s
  write_disks (c ∷ cs) s = write_disks cs (write_disk c s)

  pub traverse-write_disks :
      (cs : List Config) (s : S)
      → traverse_loop (map entry_of cs) (ndisk_save_enumerator profile file) s
        ≡ ok (write_disks cs s)
  unfolding traverse_loop ndisk_save_enumerator
  traverse-write_disks [] s = refl
  traverse-write_disks (c ∷ cs) s = traverse-write_disks cs (write_disk c s)

  listed-append : (n : Str) (ms : List Str) → listed is.same n (ms ++ (n ∷ [])) ≡ true
  listed-append n [] = rw (is.same_refl n)
  listed-append n (m ∷ ms) = ground (arith, listed-append n ms)

  sections-put :
      (c : Config) (k : Str) (v : Option Str) (s t : S)
      → IsConfig c
      → Plain (text_of v)
      → is.sections file t ≡ is.sections file s ++ (c.nickname ∷ [])
      → is.sections file (put c k v t) ≡ is.sections file s ++ (c.nickname ∷ [])
  sections-put c k v s t w p h =
      is.sections_old file c.nickname k v t w.nickname_plain p (
        ap (λ (ns : List Str). listed is.same c.nickname ns) h
        ∙ listed-append c.nickname (is.sections file s))
      ∙ h

  pub sections-write_disk :
      (c : Config) (s : S)
      → IsConfig c
      → listed is.same c.nickname (is.sections file s) ≡ false
      → is.sections file (write_disk c s) ≡ is.sections file s ++ (c.nickname ∷ [])
  sections-write_disk c s w fresh =
      let typed =
        is.sections_new file c.nickname (codes "type") c.type s w.nickname_plain w.type_plain
          fresh in
      let named =
        sections-put c (codes "username") (some c.username) s (after_type c s) w w.username_plain
          typed in
      let nicknamed =
        sections-put c (codes "nickname") (some c.nickname) s (after_username c s) w
          w.nickname_plain named in
      sections-put c (codes "secret") c.secret s (after_token c s) w w.secret_plain
        (sections-put c (codes "token") c.token s (after_nickname c s) w w.token_plain nicknamed)

  -- The store holds the texts of a disk.
  pub record Holds (c : Config) (s : S) : Type ℓ where
    pub type_held : profile.get_string file c.nickname (codes "type") 4096 s ≡ c.type
    pub username_held : profile.get_string file c.nickname (codes "username") 4096 s ≡ c.username
    pub token_held : profile.get_string file c.nickname (codes "token") 4096 s ≡ text_of c.token
    pub secret_held : profile.get_string file c.nickname (codes "secret") 4096 s ≡ text_of c.secret

  module _ (c : Config) (w : IsConfig c) where
    over :
        (k k' : Str) (v : Option Str) (s : S)
        → Plain (text_of v)
        → eq_str (lower k) (lower k') ≡ false
        → profile.get_string file c.nickname k' 4096 (profile.write_string file c.nickname k v s)
          ≡ profile.get_string file c.nickname k' 4096 s
    over k k' v s p h = is.get_other_key file c.nickname k k' v 4096 s w.nickname_plain p h

    kept :
        (k : Str) (v : Option Str) (s : S)
        → Plain (text_of v)
        → length (text_of v) < 4096
        → profile.get_string file c.nickname k 4096 (profile.write_string file c.nickname k v s)
          ≡ text_of v
    kept k v s p fits = is.get_written file c.nickname k v 4096 s w.nickname_plain p fits

    write_disk-Holds : (s : S) → Holds c (write_disk c s)
    unfolding eq_str
    write_disk-Holds s = record {
      type_held =
          over (codes "secret") (codes "type") c.secret (after_token c s) w.secret_plain refl
          ∙ over (codes "token") (codes "type") c.token (after_nickname c s) w.token_plain refl
          ∙ over (codes "nickname") (codes "type") (some c.nickname) (after_username c s)
              w.nickname_plain refl
          ∙ over (codes "username") (codes "type") (some c.username) (after_type c s)
              w.username_plain refl
          ∙ kept (codes "type") (some c.type) s w.type_plain w.type_fits;
      username_held =
          over (codes "secret") (codes "username") c.secret (after_token c s) w.secret_plain refl
          ∙ over (codes "token") (codes "username") c.token (after_nickname c s) w.token_plain refl
          ∙ over (codes "nickname") (codes "username") (some c.nickname) (after_username c s)
              w.nickname_plain refl
          ∙ kept (codes "username") (some c.username) (after_type c s) w.username_plain
              w.username_fits;
      token_held =
          over (codes "secret") (codes "token") c.secret (after_token c s) w.secret_plain refl
          ∙ kept (codes "token") c.token (after_nickname c s) w.token_plain w.token_fits;
      secret_held = kept (codes "secret") c.secret (after_token c s) w.secret_plain w.secret_fits;
    }

  -- Writing a disk of another name changes nothing of these.
  get-write_disk :
      (c : Config) (n k : Str) (s : S)
      → IsConfig c
      → is.same c.nickname n ≡ false
      → profile.get_string file n k 4096 (write_disk c s) ≡ profile.get_string file n k 4096 s
  get-write_disk c n k s w h =
      other (codes "secret") c.secret (after_token c s) w.secret_plain
      ∙ other (codes "token") c.token (after_nickname c s) w.token_plain
      ∙ other (codes "nickname") (some c.nickname) (after_username c s) w.nickname_plain
      ∙ other (codes "username") (some c.username) (after_type c s) w.username_plain
      ∙ other (codes "type") (some c.type) s w.type_plain
    where
      other :
          (k' : Str) (v : Option Str) (t : S)
          → Plain (text_of v)
          → profile.get_string file n k 4096 (put c k' v t) ≡ profile.get_string file n k 4096 t
      other k' v t p = is.get_other_section file c.nickname n k' k v 4096 t w.nickname_plain p h

  Holds-write_disk :
      (c c' : Config) (s : S)
      → IsConfig c'
      → is.same c'.nickname c.nickname ≡ false
      → Holds c s
      → Holds c (write_disk c' s)
  Holds-write_disk c c' s w h held = record {
    type_held = get-write_disk c' c.nickname (codes "type") s w h ∙ held.type_held;
    username_held = get-write_disk c' c.nickname (codes "username") s w h ∙ held.username_held;
    token_held = get-write_disk c' c.nickname (codes "token") s w h ∙ held.token_held;
    secret_held = get-write_disk c' c.nickname (codes "secret") s w h ∙ held.secret_held;
  }

  Holds-write_disks :
      (c : Config) (cs : List Config) (s : S)
      → AreConfigs cs
      → listed is.same c.nickname (nicknames cs) ≡ false
      → Holds c s
      → Holds c (write_disks cs s)
  Holds-write_disks c [] s _ h held = held
  Holds-write_disks c (c' ∷ cs) s (w, ws) h held =
      Holds-write_disks c cs (write_disk c' s) ws (ground arith)
        (Holds-write_disk c c' s w (is.same_comm c'.nickname c.nickname ∙ ground arith) held)

  abbrev pub AllHold : List Config → S → Type ℓ
  AllHold [] s = Unit
  AllHold (c ∷ cs) s = Holds c s × AllHold cs s

  pub write_disks-AllHold :
      (cs : List Config) (s : S)
      → AreConfigs cs
      → Distinct is.same (nicknames cs)
      → AllHold cs (write_disks cs s)
  write_disks-AllHold [] s _ _ = tt
  write_disks-AllHold (c ∷ cs) s (w, ws) (h, hs) = (
    Holds-write_disks c cs (write_disk c s) ws h (write_disk-Holds c w s),
    write_disks-AllHold cs (write_disk c s) ws hs,
  )
