-- ===== src/Utility/Copy.antt =====
-- `wcslcpy` and `strlcpy` truncate.
use netdisk4tc.Base.{
  ℕ, ◌+◌, ◌-◌, ◌≤◌, ◌<◌, ◌≡◌, inl, inr, arith, leb, lt→ltb, le→ltb, leb→le, Bool-cases, length,
  length-take, take, take-of_length_le, Str, ok, fault,
}
use netdisk4tc.Crt.{wcsncpy_s, wcscpy_s}
use netdisk4tc.Utility.{wcslcpy}

-- With a size that is positive and no larger than the destination, the copy never faults: the
-- destination holds the source's first `imaxlen - 1` characters, the whole source where it is
-- shorter than `imaxlen`.
pub wcslcpy-take :
    (room : ℕ) (s : Str) (n : ℕ) → 0 < n → n ≤ room → wcslcpy room s n ≡ ok (take (n - 1) s)
unfolding wcslcpy wcsncpy_s wcscpy_s
wcslcpy-take room s n pos fits = elim (Bool-cases (leb n (length s + 1))) [
  | inl long ↦ rw (
    long,
    lt→ltb (length (take (n - 1) s)) n (omega (arith, length-take (n - 1) s)),
    lt→ltb (length (take (n - 1) s)) room (omega (arith, length-take (n - 1) s)),
  )
  | inr short ↦ rw (
    short,
    take-of_length_le (n - 1) s (ground arith),
    lt→ltb (length s) n (ground arith),
    lt→ltb (length s) room (ground arith),
  )
]

-- A source that fills a destination smaller than the size given is written past its end.
pub wcslcpy-overflows :
    (room : ℕ) (s : Str) (n : ℕ) → room < n → room ≤ length s → wcslcpy room s n ≡ fault
unfolding wcslcpy wcsncpy_s wcscpy_s
wcslcpy-overflows room s n h k = elim (Bool-cases (leb n (length s + 1))) [
  | inl long ↦ rw (
    long,
    lt→ltb (length (take (n - 1) s)) n (omega (arith, length-take (n - 1) s)),
    le→ltb (length (take (n - 1) s)) room (
        let m : n ≤ length s + 1 = leb→le n (length s + 1) long in
        omega (arith, length-take (n - 1) s)),
  )
  | inr short ↦ rw (short, lt→ltb (length s) n (ground arith), le→ltb (length s) room k)
]
