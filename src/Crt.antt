-- ===== src/Crt.antt =====
-- The functions of the C runtime that the program calls, on strings without their terminators.
pub mod Number
pub mod Token
use Prim.Native.Nat.{min}
use netdisk4tc.Base.{
  ℕ, zero, suc, ◌+◌, ◌-◌, ◌*◌, ◌%◌, ◌^◌, Bool, true, false, ◌&&◌, ◌||◌, Option, none, some, List,
  [], ◌∷◌, ◌++◌, if◌then◌else◌, leb, ltb, ◌==◌, length, take, Str, Run, ok, fault, ◌>>=◌, ◌>>◌,
  expect,
}

-- `wcsncpy_s(dst, size, src, count)` and `strncpy_s`: the destination's string afterwards. The
-- invalid parameter handler ends the program where the string does not fit.
unfoldable pub wcsncpy_s : ℕ → Str → ℕ → Run Str
wcsncpy_s size src count = do expect (ltb (length (take count src)) size); ok (take count src)

-- `wcscpy_s(dst, size, src)` and `strcpy_s`.
unfoldable pub wcscpy_s : ℕ → Str → Run Str
wcscpy_s size src = do expect (ltb (length src) size); ok src

-- `wcscat_s(dst, size, src)` and `strcat_s`.
unfoldable pub wcscat_s : Str → ℕ → Str → Run Str
wcscat_s dst size src = do expect (ltb (length dst + length src) size); ok (dst ++ src)

-- `sprintf_s(dst, size, …)` where the text is `out`.
unfoldable pub sprintf_s : ℕ → Str → Run Str
sprintf_s size out = do expect (ltb (length out) size); ok out

-- `_wcsnicmp(a, b, n) == 0`: the first `n` characters are the same but for the case of letters.
abbrev pub to_lower : ℕ → ℕ
to_lower c = if leb b'A' c && leb c b'Z' then c + 32 else c

unfoldable pub wcsnicmp_equal : Str → Str → ℕ → Bool
wcsnicmp_equal a b zero = true
wcsnicmp_equal [] [] (suc n) = true
wcsnicmp_equal [] (_ ∷ _) (suc n) = false
wcsnicmp_equal (_ ∷ _) [] (suc n) = false
wcsnicmp_equal (c ∷ a) (d ∷ b) (suc n) = (to_lower c == to_lower d) && wcsnicmp_equal a b n

abbrev pub is_digit : ℕ → Bool
is_digit c = leb b'0' c && leb c b'9'

-- `isspace` in the C locale.
abbrev pub is_space : ℕ → Bool
is_space c = c == b' ' || (leb 9 c && leb c 13)

unfoldable pub skip_space : Str → Str
skip_space [] = []
skip_space (c ∷ s) = if is_space c then skip_space s else c ∷ s

-- The digits at the front behind the number `n`, and the rest.
unfoldable pub read_digits : ℕ → Str → ℕ × Str
read_digits n [] = (n, [])
read_digits n (c ∷ s) =
    let rest = read_digits (n * 10 + (c - b'0')) s in if is_digit c then rest else (n, c ∷ s)

-- `strcspn(s, set)`: how many characters stand before the first that `set` holds.
unfoldable pub strcspn : (ℕ → Bool) → Str → ℕ
strcspn set [] = 0
strcspn set (c ∷ s) = if set c then 0 else suc (strcspn set s)

-- The part of a string before the first delimiter, and what stands behind that delimiter.
unfoldable pub split_at : ℕ → Str → Str × Str
split_at d [] = ([], [])
split_at d (c ∷ s) = let rest = split_at d s in if c == d then ([], s) else (c ∷ rest.0, rest.1)

unfoldable pub skip_delimiters : ℕ → Str → Str
skip_delimiters d [] = []
skip_delimiters d (c ∷ s) = if c == d then skip_delimiters d s else c ∷ s

-- `strtok` with one delimiter, on the text that is still to be read: the token, `none` for `NULL`,
-- and the text that the next call with `NULL` reads.
strtok_rest : ℕ → Str → Option Str × Str
strtok_rest d [] = (none, [])
strtok_rest d (c ∷ s) = let r = split_at d (c ∷ s) in (some r.0, r.1)

unfoldable pub strtok : ℕ → Str → Option Str × Str
unfolding strtok_rest split_at skip_delimiters
strtok d s = strtok_rest d (skip_delimiters d s)

-- A directive of a `scanf` format.
pub data Directive : Type 0 where
  int : Directive
  lit : ℕ → Directive
  space : Directive

-- The digits of a `%d`, at least one. A number outside `int` is undefined behaviour.
number : Str → ℕ → Run (Option (ℕ × Str))
number [] limit = ok none
number (c ∷ s) limit =
    let r = read_digits 0 (c ∷ s) in
    if is_digit c then (do expect (ltb r.0 limit); ok (some r)) else ok none

abbrev negate : Option (ℕ × Str) → Option (ℕ × Str)
negate none = none
negate (some (n, s)) = some ((2 ^ 32 - n) % 2 ^ 32, s)

signed : Str → Run (Option (ℕ × Str))
signed [] = ok none
signed (c ∷ s) =
    if c == b'-'
    then (do r ← number s (2 ^ 31 + 1); ok (negate r))
    else if c == b'+'
    then number s (2 ^ 31)
    else number (c ∷ s) (2 ^ 31)

-- `%d`: an `int` as its 32-bit pattern and the rest, or `none` where no number stands.
unfoldable pub scan_int : Str → Run (Option (ℕ × Str))
unfolding signed number skip_space read_digits
scan_int s = signed (skip_space s)

-- `scanf` up to the first directive that does not match: the numbers that are stored.
unfoldable pub scan : List Directive → Str → Run (List ℕ)
unfolding scan_int
scan [] s = ok []
scan (int ∷ fs) s = do
  r ← scan_int s
  elim r [ none ↦ ok [] | some (n, rest) ↦ (do ns ← scan fs rest; ok (n ∷ ns)) ]
scan (lit c ∷ fs) [] = ok []
scan (lit c ∷ fs) (x ∷ s) = let rest = scan fs s in if x == c then rest else ok []
scan (space ∷ fs) s = scan fs (skip_space s)

-- `atoi`, as a 32-bit pattern. It stops at the first character that is no digit, and at the ends of
-- `int` it stays there.
atoi_signed : Str → ℕ
atoi_signed [] = 0
atoi_signed (c ∷ s) =
    if c == b'-'
    then (2 ^ 32 - min (read_digits 0 s).0 (2 ^ 31)) % 2 ^ 32
    else if c == b'+'
    then min (read_digits 0 s).0 (2 ^ 31 - 1)
    else min (read_digits 0 (c ∷ s)).0 (2 ^ 31 - 1)

unfoldable pub atoi : Str → ℕ
unfolding atoi_signed skip_space read_digits
atoi s = atoi_signed (skip_space s)
