-- ===== src/Utility/Time.antt =====
-- `strtotime` on a well-formed time, and on a text with no number at its front.
use netdisk4tc.Base.{
  ℕ, ◌<◌, ◌%◌, ◌^◌, ◌≡◌, ◌≢◌, refl, true, false, false, some, [], ◌∷◌, ◌++◌, arith, Str, List, sym,
  append-nil, ◌∙◌, ok, ap,
}
use netdisk4tc.Crt.{Directive, int, lit, space, scan, is_digit, is_space}
use netdisk4tc.Crt.Number.{Digits, NoDigit, value, scan_int-Digits, skip_space-Digits}
use netdisk4tc.Utility.{SystemTime, strtotime}

-- A text of digits for an `int`.
pub record IsNumber (s : Str) : Type 0 where
  pub digits : Digits s
  pub ne_nil : s ≢ []
  pub fits : value 0 s < 2 ^ 31

scan-int :
    (fs : List Directive) (ds rest : Str) {ns : List ℕ}
    → IsNumber ds
    → NoDigit rest
    → scan fs rest ≡ ok ns
    → scan (int ∷ fs) (ds ++ rest) ≡ ok (value 0 ds ∷ ns)
unfolding scan
scan-int fs ds rest is h k = rw (scan_int-Digits ds rest is.digits is.ne_nil is.fits h, k)

scan-lit_behind :
    (fs : List Directive) (ds : Str) (c : ℕ) (s : Str) {ns : List ℕ}
    → IsNumber ds
    → is_digit c ≡ false
    → scan fs s ≡ ok ns
    → scan (int ∷ lit c ∷ fs) (ds ++ (c ∷ s)) ≡ ok (value 0 ds ∷ ns)
unfolding scan
scan-lit_behind fs ds c s is h k = scan-int (lit c ∷ fs) ds (c ∷ s) is h (ground arith)

scan-space :
    (fs : List Directive) (ds rest : Str)
    → IsNumber ds
    → scan (space ∷ fs) (b' ' ∷ (ds ++ rest)) ≡ scan fs (ds ++ rest)
unfolding scan
scan-space fs ds rest is = ap (scan fs) (skip_space-Digits ds rest is.digits is.ne_nil)

scan-last : (ds : Str) → IsNumber ds → scan (int ∷ []) ds ≡ ok (value 0 ds ∷ [])
unfolding scan
scan-last ds is =
    ap (λ (s : Str). scan (int ∷ []) s) (sym (append-nil ds)) ∙ scan-int [] ds [] is tt refl

-- `Y-M-D h:m:s`.
abbrev pub time_text : Str → Str → Str → Str → Str → Str → Str
time_text y mo d h mi se =
    y ++ (b'-' ∷ (mo ++ (b'-' ∷ (d ++ (b' ' ∷ (h ++ (b':' ∷ (mi ++ (b':' ∷ se)))))))))

-- A time of the form `Y-M-D h:m:s`, each part a decimal number that fits `int`, is accepted and
-- sets the six fields to the numbers' low 16 bits; the other fields keep their content.
pub strtotime-digits :
    (y mo d h mi se : Str) (t : SystemTime)
    → IsNumber y
    → IsNumber mo
    → IsNumber d
    → IsNumber h
    → IsNumber mi
    → IsNumber se
    → strtotime (some (time_text y mo d h mi se)) t
      ≡ ok (
        true,
        record t {
          year = value 0 y % 2 ^ 16;
          month = value 0 mo % 2 ^ 16;
          day = value 0 d % 2 ^ 16;
          hour = value 0 h % 2 ^ 16;
          minute = value 0 mi % 2 ^ 16;
          second = value 0 se % 2 ^ 16;
        },
      )
unfolding strtotime
strtotime-digits y mo d h mi se t iy imo id ih imi ise =
    let s5 = mi ++ (b':' ∷ se) in
    let s4 = h ++ (b':' ∷ s5) in
    let s3 = d ++ (b' ' ∷ s4) in
    let s2 = mo ++ (b'-' ∷ s3) in
    let f5 : List Directive = int ∷ [] in
    let f4 : List Directive = int ∷ lit b':' ∷ f5 in
    let f3 : List Directive = int ∷ lit b':' ∷ f4 in
    let f2 : List Directive = int ∷ space ∷ f3 in
    let f1 : List Directive = int ∷ lit b'-' ∷ f2 in
    rw (
      scan-lit_behind f1 y b'-' s2 iy refl (
        scan-lit_behind f2 mo b'-' s3 imo refl (
          scan-int (space ∷ f3) d (b' ' ∷ s4) id refl (
            scan-space f3 h (b':' ∷ s5) ih
            ∙ scan-lit_behind f4 h b':' s5 ih refl
                (scan-lit_behind f5 mi b':' se imi refl (scan-last se ise))))))

-- A text that begins with neither a number nor a sign is accepted too, and sets the six fields to 0.
pub strtotime-no_number :
    (c : ℕ) (s : Str) (t : SystemTime)
    → is_space c ≡ false
    → is_digit c ≡ false
    → c ≢ b'-'
    → c ≢ b'+'
    → strtotime (some (c ∷ s)) t
      ≡ ok (true, record t { year = 0; month = 0; day = 0; hour = 0; minute = 0; second = 0 })
unfolding strtotime
strtotime-no_number c s t hs hd hm hp = ground arith
