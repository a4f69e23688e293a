-- ===== src/Crt/Number.antt =====
-- Decimal texts.
use netdisk4tc.Base.{
  ◌<◌, ◌^◌, some, ok, ℕ, ◌+◌, ◌-◌, ◌*◌, ◌≡◌, ◌≢◌, refl, true, false, [], ◌∷◌, ◌++◌, arith, Str,
}
use netdisk4tc.Crt.{is_digit, skip_space, read_digits, scan_int, atoi}

-- A text of digits.
abbrev pub Digits : Str → Type 0
Digits [] = Unit
Digits (c ∷ s) = (is_digit c ≡ true) × Digits s

-- The number that digits spell behind `n`.
abbrev pub value : ℕ → Str → ℕ
value n [] = n
value n (c ∷ s) = value (n * 10 + (c - b'0')) s

-- What follows does not begin with a digit.
abbrev pub NoDigit : Str → Type 0
NoDigit [] = Unit
NoDigit (c ∷ s) = is_digit c ≡ false

pub read_digits-append :
    (n : ℕ) (ds rest : Str)
    → Digits ds
    → NoDigit rest
    → read_digits n (ds ++ rest) ≡ (value n ds, rest)
unfolding read_digits
read_digits-append n [] [] _ _ = refl
read_digits-append n [] (c ∷ rest) _ h = rw h
read_digits-append n (c ∷ ds) rest (hc, h) k =
    rw hc (read_digits-append (n * 10 + (c - b'0')) ds rest h k)

pub skip_space-Digits : (ds rest : Str) → Digits ds → ds ≢ [] → skip_space (ds ++ rest) ≡ ds ++ rest
unfolding skip_space
skip_space-Digits [] rest _ ne = absurd (ne refl)
skip_space-Digits (c ∷ ds) rest (h, _) ne = ground arith

-- `%d` reads a text of digits that fits `int`.
pub scan_int-Digits :
    (ds rest : Str)
    → Digits ds
    → ds ≢ []
    → value 0 ds < 2 ^ 31
    → NoDigit rest
    → scan_int (ds ++ rest) ≡ ok (some (value 0 ds, rest))
unfolding scan_int
scan_int-Digits [] rest _ ne fits h = absurd (ne refl)
scan_int-Digits (c ∷ ds) rest w ne fits h =
    rw (skip_space-Digits (c ∷ ds) rest w ne)
      (ground (arith, read_digits-append 0 (c ∷ ds) rest w h, w.0))

-- So does `atoi`.
pub atoi-Digits :
    (ds rest : Str)
    → Digits ds
    → ds ≢ []
    → value 0 ds < 2 ^ 31
    → NoDigit rest
    → atoi (ds ++ rest) ≡ value 0 ds
unfolding atoi
atoi-Digits [] rest _ ne fits h = absurd (ne refl)
atoi-Digits (c ∷ ds) rest w ne fits h =
    rw (skip_space-Digits (c ∷ ds) rest w ne)
      (ground (arith, read_digits-append 0 (c ∷ ds) rest w h, w.0))
