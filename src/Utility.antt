-- ===== src/Utility.antt =====
-- The string helpers of netdisk4tc/utility.c. A string argument is a pointer that may be `NULL`.
-- `wcslcpy` and `strlcpy` differ only in the character type, and so do `wtrim` and `trim`: each pair
-- has one model over characters as numbers.
pub mod Copy
pub mod Trim
pub mod Time
pub mod Convert
use netdisk4tc.Base.{
  ◌%◌, ◌^◌, ℕ, zero, suc, ◌+◌, ◌-◌, Bool, true, false, not, ◌&&◌, ◌||◌, Option, none, some, List,
  [], ◌∷◌, ◌++◌, if◌then◌else◌, leb, ltb, ◌==◌, length, get_elem?, set, take, drop, Str, Run, ok,
  fault, ◌>>=◌, ◌>>◌, expect,
}
use netdisk4tc.Crt.{wcsncpy_s, wcscpy_s, Directive, int, lit, space, scan}

-- `wcslcpy(str1, str2, imaxlen)` and `strlcpy`: the string that `str1` holds afterwards, for
-- `imaxlen` from 0 on. The test `wcslen(str2) >= imaxlen - 1` is over `int`. `str1` has room for
-- `room` characters.
unfoldable pub wcslcpy : ℕ → Str → ℕ → Run Str
wcslcpy room str2 imaxlen = do
  str1 ←
      (if leb imaxlen (length str2 + 1)
        then wcsncpy_s imaxlen str2 (imaxlen - 1)
        else wcscpy_s imaxlen str2)
  expect (ltb (length str1) room)
  ok str1

abbrev pub is_blank : ℕ → Bool
is_blank c = c == b' ' || c == b'\r' || c == b'\n' || c == b'\t'

-- A block of characters that holds a string: `trim` works in place on it.
abbrev pub Block : Type 0
Block = List ℕ

-- The first loop of `trim` from position `i`: the position where it stops. It stops at a terminator,
-- and faults where it runs off the block.
skip_blanks : Block → ℕ → Run ℕ
skip_blanks [] i = fault
skip_blanks (c ∷ cs) i = if is_blank c then skip_blanks cs (suc i) else ok i

-- The second loop: `str_cur` is at position `i`, `last` is `str_last`.
last_word : Block → ℕ → ℕ → Run ℕ
last_word [] i last = fault
last_word (c ∷ cs) i last =
    let rest = last_word cs (suc i) (if is_blank c then last else i) in
    if c == 0 then ok last else rest

-- `*p = 0`.
unfoldable pub put_nul : Block → ℕ → Run Block
put_nul b i = if ltb i (length b) then ok (set b i 0) else fault

-- `trim(str)`, not `NULL`: the position of the result in the block, and the block afterwards.
unfoldable pub trim : Block → Run (ℕ × Block)
unfolding skip_blanks last_word put_nul
trim b = do
  str ← skip_blanks b 0
  last ← last_word (drop str b) str str
  b' ← put_nul b (last + 1)
  ok (str, b')

-- The string that starts at a position of a block.
unfoldable pub c_string : Block → Str
c_string [] = []
c_string (c ∷ cs) = let rest = c_string cs in if c == 0 then [] else c ∷ rest

-- `SYSTEMTIME`; each field is a 16-bit word.
pub record SystemTime : Type 0 where
  pub year : ℕ
  pub month : ℕ
  pub day_of_week : ℕ
  pub day : ℕ
  pub hour : ℕ
  pub minute : ℕ
  pub second : ℕ
  pub milliseconds : ℕ

-- `"%d-%d-%d %d:%d:%d"`.
abbrev pub time_format : List Directive
time_format =
    int ∷ lit b'-' ∷ int ∷ lit b'-' ∷ int ∷ space ∷ int ∷ lit b':' ∷ int ∷ lit b':' ∷ int ∷ []

-- The variable that stands at a place of the format: what was stored there, or its initial 0.
abbrev pub scanned : List ℕ → ℕ → ℕ
scanned [] i = 0
scanned (n ∷ ns) zero = n
scanned (n ∷ ns) (suc i) = scanned ns i

-- The assignments to the fields, which keep the low 16 bits.
abbrev pub set_time : SystemTime → List ℕ → SystemTime
set_time t ns = record t {
  year = scanned ns 0 % 2 ^ 16;
  month = scanned ns 1 % 2 ^ 16;
  day = scanned ns 2 % 2 ^ 16;
  hour = scanned ns 3 % 2 ^ 16;
  second = scanned ns 5 % 2 ^ 16;
  minute = scanned ns 4 % 2 ^ 16;
}

-- `strtotime(str, time)`: the result and `*time`.
unfoldable pub strtotime : Option Str → SystemTime → Run (Bool × SystemTime)
unfolding scan
strtotime none t = ok (false, t)
strtotime (some s) t = do ns ← scan time_format s; ok (true, set_time t ns)
