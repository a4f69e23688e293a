-- ===== src/Plugin/Sessions.antt =====
-- Many searches at once: the file manager opens, reads and closes them in any order, while disks are
-- added. What each listing holds is given back when its search is closed, once.
use mathlib.Core.List.{Perm, perm_append_comm}
use mathlib.Core.List.Perm
use mathlib.Core.Path.{subst}
use netdisk4tc.Base.{
  ℕ, ◌≡◌, refl, ap, sym, ◌∙◌, Bool, false, Option, none, some, List, [], ◌∷◌, ◌++◌, append_assoc,
  arith, Str, ok, inl, inr, Bool-cases, Option-cases, eq_str,
}
use netdisk4tc.Utility.{SystemTime}
use netdisk4tc.Dictionary.{Release, dict_destroy}
use netdisk4tc.Dictionary.Ownership.{released, held, released-append, released-destroy_loop}
use netdisk4tc.Disk.{DiskEntry, Disks, root}
use netdisk4tc.Disk.Listing.{FindData, Files, Script}
use netdisk4tc.Plugin.{
  FindStruc, fs_find_first_w, fs_find_next_w, fs_find_close, next_disk, next_file,
}

module _ {A : Type 0} where
  commute : (xs ys zs : List A) → Perm (xs ++ (ys ++ zs)) (ys ++ (xs ++ zs))
  commute xs ys zs =
      rw (← append_assoc, ← append_assoc) (Perm.append_right zs (perm_append_comm xs ys))

  closed_moves : (xs ys ps zs : List A) → Perm ((ys ++ xs) ++ (ps ++ zs)) (xs ++ (ps ++ (ys ++ zs)))
  closed_moves xs ys ps zs =
      rw append_assoc
        (Perm.trans (commute ys xs (ps ++ zs)) (Perm.append_left xs (commute ys ps zs)))

-- The searches that are open, what the searches opened so far have listed, and what is given back.
pub record Searches : Type 0 where
  pub opened : List FindStruc
  pub listed : List (Option FindData)
  pub given_back : List (Release FindData (Unit {0}))

abbrev pub no_searches : Searches
no_searches = record { opened = []; listed = []; given_back = [] }

-- The values in the dictionary of a search.
abbrev pub listing_of : Option Files → List (Option FindData)
listing_of none = []
listing_of (some files) = held files.first

abbrev pub listings : List FindStruc → List (Option FindData)
listings [] = []
listings (find ∷ fs) = listing_of find.dict ++ listings fs

listings-append : (fs gs : List FindStruc) → listings (fs ++ gs) ≡ listings fs ++ listings gs
listings-append [] gs = refl
listings-append (f ∷ fs) gs =
    ap (λ ds. listing_of f.dict ++ ds) (listings-append fs gs)
    ∙ sym (append_assoc (listing_of f.dict) (listings fs) (listings gs))

next_disk-dict :
    (disks : Disks) (find find' : FindStruc) (new : FindData) (more : Bool) (h : Option ℕ)
    → next_disk disks find h ≡ ok (more, some find', new)
    → find'.dict ≡ find.dict
next_disk-dict disks find find' new more none e = ground arith
next_disk-dict disks find find' new more (some i) e = ground arith

next_file-dict :
    (find find' : FindStruc) (old new : FindData) (more : Bool) (h : Option ℕ)
    → next_file find old h ≡ ok (more, some find', new)
    → find'.dict ≡ find.dict
next_file-dict find find' old new more none e = ground arith
next_file-dict find find' old new more (some i) e = ground arith

-- A call reads the search's own dictionary and leaves it as it is.
fs_find_next_w-dict :
    (disks : Disks) (find find' : FindStruc) (old new : FindData) (more : Bool)
    → fs_find_next_w disks (some find) old ≡ ok (more, some find', new)
    → find'.dict ≡ find.dict
unfolding fs_find_next_w
fs_find_next_w-dict disks find find' old new more h = elim (Bool-cases find.is_last) [
  | inl last ↦ cc (rw last at h)
  | inr going ↦ elim (Bool-cases (eq_str find.path root)) [
    | inl at_root ↦
        next_disk-dict disks (record find { is_last = false }) find' new more find.find_handle
          (rw (going, at_root) at h)
    | inr below ↦
        next_file-dict (record find { is_last = false }) find' old new more find.find_handle
          (rw (going, below) at h)
  ]
]

released-fs_find_close :
    (find : FindStruc) → released (fs_find_close (some find)).1 ≡ listing_of find.dict
unfolding fs_find_close dict_destroy
released-fs_find_close find = elim (Option-cases find.dict) [
  | inl none_there ↦ rw none_there
  | inr (files, is) ↦ rw is (released-destroy_loop files.first)
]

module _ (ctow wtoc : Str → Str) (file_time : SystemTime → Option ℕ) where
  -- One call. The kinds, the disks and the scripts may be others at each.
  pub data Step (w : Searches) : Searches → Type 0 where
    find_first :
        (kinds : List DiskEntry) (disks : Disks) (scripts : Str → Script) (path : Str)
        (find : FindStruc) (d : FindData)
        → fs_find_first_w ctow wtoc file_time kinds disks scripts path ≡ ok (some (find, d))
        → Step w (record w { opened = find ∷ w.opened; listed = listing_of find.dict ++ w.listed })
    find_next :
        (disks : Disks) (pre post : List FindStruc) (find find' : FindStruc) (old new : FindData)
        (more : Bool)
        → w.opened ≡ pre ++ (find ∷ post)
        → fs_find_next_w disks (some find) old ≡ ok (more, some find', new)
        → Step w (record w { opened = pre ++ (find' ∷ post) })
    find_close :
        (pre post : List FindStruc) (find : FindStruc)
        → w.opened ≡ pre ++ (find ∷ post)
        → Step w (record w {
          opened = pre ++ post;
          given_back = (fs_find_close (some find)).1 ++ w.given_back;
        })

  pub data Steps (w : Searches) : Searches → Type 0 where
    start : Steps w w
    then : {w' w'' : Searches} → Steps w w' → Step w' w'' → Steps w w''

  abbrev Balanced : Searches → Type 0
  Balanced w = Perm (released w.given_back ++ listings w.opened) w.listed

  Step-Balanced : {w w' : Searches} → Step w w' → Balanced w → Balanced w'
  Step-Balanced {w} (find_first _ _ _ _ find d _) all =
      Perm.trans (commute (released w.given_back) (listing_of find.dict) (listings w.opened))
        (Perm.append_left (listing_of find.dict) all)
  Step-Balanced {w} (find_next disks pre post find find' old new more split e) all =
      let same : listings (pre ++ (find' ∷ post)) ≡ listings w.opened =
        listings-append pre (find' ∷ post)
        ∙ ap (λ dict. listings pre ++ (listing_of dict ++ listings post))
            (fs_find_next_w-dict disks find find' old new more e)
        ∙ sym (ap listings split ∙ listings-append pre (find ∷ post)) in
      subst (λ ds. Perm (released w.given_back ++ ds) w.listed) (sym same) all
  Step-Balanced {w} (find_close pre post find split) all =
      let before = ap listings split ∙ listings-append pre (find ∷ post) in
      let moved =
        closed_moves (released w.given_back) (listing_of find.dict) (listings pre)
          (listings post) in
      rw (released-append, released-fs_find_close, listings-append)
        (Perm.trans moved (rw before at all))

  Steps-Balanced : {w w' : Searches} → Steps w w' → Balanced w → Balanced w'
  Steps-Balanced start all = all
  Steps-Balanced (then steps step) all = Step-Balanced step (Steps-Balanced steps all)

  -- In any order in which searches are opened, read and closed, with disks and scripts that may
  -- change meanwhile: of the data that the searches have listed, each is still in the dictionary of an
  -- open search or has been given back, never both, and given back at most once.
  pub given_back-Steps :
      {w : Searches}
      → Steps no_searches w
      → Perm (released w.given_back ++ listings w.opened) w.listed
  given_back-Steps steps = Steps-Balanced steps (Perm.refl [])
