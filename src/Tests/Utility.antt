-- ===== src/Tests/Utility.antt =====
-- Copies, trims and times.
use netdisk4tc.Base.{
  ℕ, ◌%◌, ◌^◌, ◌≡◌, refl, true, [], ◌∷◌, ◌++◌, some, drop, codes, ok, fault, arith,
}
use netdisk4tc.Crt.Number.{value}
use netdisk4tc.Utility.{Block, trim, c_string, SystemTime, strtotime}
use netdisk4tc.Utility.Time.{IsNumber, time_text, strtotime-digits}
use netdisk4tc.Utility.Trim.{trim_lem, trim-Blanks}

trim_lem_example :
    (b' : Block) × (trim (codes " " ++ (codes "a" ++ (b'b' ∷ (codes " " ++ (0 ∷ [])))))
      ≡ ok (1, b'))
    × (c_string (drop 1 b') ≡ codes "ab")
trim_lem_example =
    trim_lem (codes " ") (codes "a") b'b' (codes " ") [] (refl, tt) refl (omega arith, tt)
      (omega arith) refl (refl, tt)

trim-Blanks_example :
    (trim (codes "  " ++ (0 ∷ [])) ≡ fault)
    × ((x : ℕ) (b : Block) → trim (codes "  " ++ (0 ∷ x ∷ b)) ≡ ok (2, codes "  " ++ (0 ∷ 0 ∷ b)))
trim-Blanks_example = trim-Blanks (codes "  ") (refl, (refl, tt))

abbrev blank : SystemTime
blank = record {
  year = 0;
  month = 0;
  day_of_week = 0;
  day = 0;
  hour = 0;
  minute = 0;
  second = 0;
  milliseconds = 0;
}

twelve-IsNumber : IsNumber (codes "12")
twelve-IsNumber = record { digits = (refl, (refl, tt)); ne_nil = cc; fits = omega arith }

strtotime-digits_example :
    strtotime
      (some
        (time_text (codes "12") (codes "12") (codes "12") (codes "12") (codes "12") (codes "12")))
      blank
    ≡ ok (
      true,
      record blank {
        year = value 0 (codes "12") % 2 ^ 16;
        month = value 0 (codes "12") % 2 ^ 16;
        day = value 0 (codes "12") % 2 ^ 16;
        hour = value 0 (codes "12") % 2 ^ 16;
        minute = value 0 (codes "12") % 2 ^ 16;
        second = value 0 (codes "12") % 2 ^ 16;
      },
    )
strtotime-digits_example =
    strtotime-digits (codes "12") (codes "12") (codes "12") (codes "12") (codes "12") (codes "12")
      blank twelve-IsNumber twelve-IsNumber twelve-IsNumber twelve-IsNumber twelve-IsNumber
      twelve-IsNumber

new_year :
    strtotime (some (codes "2013-01-02 03:04:05")) blank
    ≡ ok (true, record blank { year = 2013; month = 1; day = 2; hour = 3; minute = 4; second = 5 })
unfolding strtotime
new_year = refl
