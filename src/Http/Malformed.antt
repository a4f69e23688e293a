-- ===== src/Http/Malformed.antt =====
-- The fuel of the header loop, and header lines that it cannot take apart.
use native.Mathlib.Numerals.{add-one}
use netdisk4tc.Base.{
  ℕ, zero, suc, ◌+◌, ◌≤◌, ◌<◌, ◌≡◌, ◌≢◌, refl, some, [], ◌∷◌, ◌++◌, length, length-append,
  length-drop, lt→leb, arith, Str, Run, ok, fault, inl, inr, ◌⊎◌,
}
use netdisk4tc.Crt.{strcspn}
use netdisk4tc.Crt.Token.{Without, strcspn-append, strcspn-all}
use netdisk4tc.Dictionary.{dict_initialize}
use netdisk4tc.Http.{Headers}
use netdisk4tc.Http.Request.{http_newline}
use netdisk4tc.Http.StatusLine.{StatusLine, IsStatusLine, status_text, parse_status-text}
use netdisk4tc.Http.RoundTrip.{take_line-append}
use netdisk4tc.Http.Response.{
  in_newline, in_colon_space, take_line, read_header, header_loop, http_response_fromstr,
}

take_line-shorter :
    (tmp line tmp' : Str) → take_line tmp ≡ ok (line, tmp') → length tmp' + 2 ≤ length tmp
unfolding take_line
take_line-shorter tmp line tmp' h = ground (arith, length-drop (strcspn in_newline tmp + 2) tmp)

Run-cases {ℓ} : {A : Type ℓ} (r : Run A) → (r ≡ fault) ⊎ ((a : A) × (r ≡ ok a))
Run-cases fault = inl refl
Run-cases (ok a) = inr (a, refl)

-- Two runs of a round are equal if the rounds behind them are.
round :
    (ctow : Str → Str) (f g : ℕ) (d : Headers) (tmp : Str) (r : Run (Str × Str))
    → take_line tmp ≡ r
    → ((d' : Headers) (tmp' : Str)
        → length tmp' + 2 ≤ length tmp
        → header_loop ctow f d' tmp' ≡ header_loop ctow g d' tmp')
    → header_loop ctow (suc f) d tmp ≡ header_loop ctow (suc g) d tmp
unfolding header_loop
round ctow f g d tmp fault e ih = rw e
round ctow f g d tmp (ok ([], tmp')) e ih = rw e
round ctow f g d tmp (ok (c ∷ cs, tmp')) e ih =
    rw e (elim (Run-cases (read_header ctow d (c ∷ cs))) [
      | inl e' ↦ rw e'
      | inr (d', e') ↦ rw e' (ih d' tmp' (take_line-shorter tmp (c ∷ cs) tmp' e))
    ])

-- With more rounds than characters the result of the header loop does not depend on the number of
-- rounds, so the rounds that `http_response_fromstr` gives it are enough.
pub header_loop-fuel :
    (ctow : Str → Str) (f g : ℕ) (d : Headers) (tmp : Str)
    → length tmp < f
    → length tmp < g
    → header_loop ctow f d tmp ≡ header_loop ctow g d tmp
header_loop-fuel ctow zero g d tmp h k = absurd (omega arith)
header_loop-fuel ctow (suc f) zero d tmp h k = absurd (omega arith)
header_loop-fuel ctow (suc f) (suc g) d tmp h k =
    round ctow f g d tmp (take_line tmp) refl
      λ d' tmp' less. header_loop-fuel ctow f g d' tmp' (omega arith) (omega arith)

-- A line with no separator, or with one as its last character.
read_header-short :
    (ctow : Str → Str) (d : Headers) (k : Str)
    → Without in_colon_space k
    → (read_header ctow d k ≡ fault) × (read_header ctow d (k ++ (b':' ∷ [])) ≡ fault)
unfolding read_header
read_header-short ctow d k w = (
  rw (strcspn-all in_colon_space k w, lt→leb (length k + 2) (length k) (omega arith)),
  rw (
    strcspn-append in_colon_space k [] b':' w refl,
    lt→leb (length k + 2) (length (k ++ (b':' ∷ []))) (omega (arith, length-append k (b':' ∷ []))),
  ),
)

loop-short :
    (ctow : Str → Str) (fuel : ℕ) (d : Headers) (line rest : Str)
    → line ≢ []
    → Without in_newline line
    → read_header ctow d line ≡ fault
    → header_loop ctow (suc fuel) d (line ++ (http_newline ++ rest)) ≡ fault
unfolding header_loop
loop-short ctow fuel d [] rest ne w h = absurd (ne refl)
loop-short ctow fuel d (c ∷ cs) rest ne w h = rw (take_line-append (c ∷ cs) rest w, h)

short_line :
    (ctow : Str → Str) (k line : Str)
    → Without in_colon_space k
    → (line ≡ k) ⊎ (line ≡ k ++ (b':' ∷ []))
    → read_header ctow dict_initialize line ≡ fault
short_line ctow k line w (inl e) = rw e (read_header-short ctow dict_initialize k w).0
short_line ctow k line w (inr e) = rw e (read_header-short ctow dict_initialize k w).1

line-ne_nil : (k line : Str) → k ≢ [] → (line ≡ k) ⊎ (line ≡ k ++ (b':' ∷ [])) → line ≢ []
line-ne_nil [] line ne _ = absurd (ne refl)
line-ne_nil (c ∷ k) line ne (inl e) = cc
line-ne_nil (c ∷ k) line ne (inr e) = cc

-- The parser reads outside its block at a header line that ends before a character can follow the
-- separator and the space behind it: here the first header line is a name alone, or a name and a
-- colon with nothing behind it.
pub http_response_fromstr-short_header :
    (ctow : Str → Str) (s : StatusLine) (k line rest : Str)
    → IsStatusLine s
    → k ≢ []
    → Without in_colon_space k
    → Without in_newline line
    → (line ≡ k) ⊎ (line ≡ k ++ (b':' ∷ []))
    → http_response_fromstr ctow
        (some (status_text s ++ (http_newline ++ (line ++ (http_newline ++ rest)))))
      ≡ fault
unfolding http_response_fromstr
http_response_fromstr-short_header ctow s k line rest is ne w nl shape =
    let tmp = line ++ (http_newline ++ rest) in
    let short : read_header ctow dict_initialize line ≡ fault = short_line ctow k line w shape in
    rw (
      take_line-append (status_text s) tmp is.one_line,
      parse_status-text s is,
      add-one,
      loop-short ctow (length tmp) dict_initialize line rest (line-ne_nil k line ne shape) nl short,
    )
