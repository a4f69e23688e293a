-- ===== src/Plugin/Delivery.antt =====
-- A search as its client sees it: what successive calls of `fs_find_next_w` deliver.
use netdisk4tc.Base.{
  ℕ, suc, ◌≡◌, refl, true, false, Option, none, some, List, [], ◌∷◌, ◌++◌, length, length-append,
  arith, lt→ltb, le→ltb, ap, ok,
}
use netdisk4tc.Disk.{Disks}
use netdisk4tc.Disk.Listing.{FindData}
use netdisk4tc.Plugin.{FindStruc, fs_find_next_w, first_handle, next_handle}

-- From a search and a `*FindData`, the calls deliver the entries of a list, in its order, and then
-- end with `FALSE`, again and again.
pub data Delivers (disks : Disks) : Option FindStruc → FindData → List FindData → Type 0 where
  ends :
      {h : Option FindStruc} {old : FindData}
      → fs_find_next_w disks h old ≡ ok (false, h, old)
      → Delivers disks h old []
  gives :
      {h h' : Option FindStruc} {old d : FindData} {ds : List FindData}
      → fs_find_next_w disks h old ≡ ok (true, h', d)
      → Delivers disks h' d ds
      → Delivers disks h old (d ∷ ds)

-- The handle of the rest `es` of a chain behind `n` entries.
abbrev pub handle_at {ℓ} : {A : Type ℓ} → ℕ → List A → Option ℕ
handle_at n [] = none
handle_at n (_ ∷ _) = some n

pub first_handle-eq {ℓ} : {A : Type ℓ} (es : List A) → first_handle es ≡ handle_at 0 es
first_handle-eq [] = refl
first_handle-eq (_ ∷ _) = refl

pub next_handle-eq {ℓ} :
    {A : Type ℓ} (ds : List A) (e : A) (es : List A)
    → next_handle (ds ++ (e ∷ es)) (length ds) ≡ handle_at (length (ds ++ (e ∷ []))) es
next_handle-eq ds e [] =
    rw (
      le→ltb (suc (length ds)) (length (ds ++ (e ∷ []))) (omega (arith, length-append ds (e ∷ []))))
next_handle-eq ds e (f ∷ es) =
    rw
      (lt→ltb (suc (length ds)) (length (ds ++ (e ∷ f ∷ es)))
        (omega (arith, length-append ds (e ∷ f ∷ es))))
      (ap (λ (n : ℕ). some n) (omega (arith, length-append ds (e ∷ []))))
