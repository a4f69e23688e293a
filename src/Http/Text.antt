-- ===== src/Http/Text.antt =====
-- What `http_request_tostr` writes, and that its buffers are large enough.
use netdisk4tc.Base.{
  ℕ, ◌+◌, ◌*◌, ◌<◌, ◌≡◌, refl, ap, sym, ◌∙◌, true, Option, none, some, List, [], ◌∷◌, ◌++◌, length,
  length-append, lt→ltb, append-nil, append_assoc, arith, Str, codes, ok,
}
use netdisk4tc.Crt.{sprintf_s, wcscat_s}
use netdisk4tc.Dictionary.{DictEntry, traverse_loop}
use netdisk4tc.Http.{HttpRequest}
use netdisk4tc.Http.Request.{
  http_newline, is_narrow, header_line, headers_join, request_line, append_headers,
  http_request_tostr,
}

-- The entry that `dict_set_element` makes of a header.
abbrev pub header_entry : Str → Str → DictEntry Str (Unit {0})
header_entry k v = record { key = k; size = length v + 1; value = some v; destroyer = none }

abbrev pub entries : List (Str × Str) → List (DictEntry Str (Unit {0}))
entries [] = []
entries ((k, v) ∷ hs) = header_entry k v ∷ entries hs

-- The header lines, in order.
abbrev pub header_text : List (Str × Str) → Str
header_text [] = []
header_text ((k, v) ∷ hs) = header_line k v ++ header_text hs

abbrev pub NarrowKeys : List (Str × Str) → Type 0
NarrowKeys [] = Unit
NarrowKeys ((k, _) ∷ hs) = (is_narrow k ≡ true) × NarrowKeys hs

sprintf_s-ok : (n : ℕ) (s : Str) → length s < n → sprintf_s n s ≡ ok s
unfolding sprintf_s
sprintf_s-ok n s h = rw (lt→ltb (length s) n h)

pub wcscat_s-ok :
    (d : Str) (n : ℕ) (s : Str) → length d + length s < n → wcscat_s d n s ≡ ok (d ++ s)
unfolding wcscat_s
wcscat_s-ok d n s h = rw (lt→ltb (length d + length s) n h)

length-header_line : (k v : Str) → length (header_line k v) ≡ length k + length v + 4
length-header_line k v =
    omega (arith, length-append k (b':' ∷ b' ' ∷ (v ++ http_newline)), length-append v http_newline)

-- What `*data` holds once a text is appended.
abbrev appended : Option Str → Str → Option Str
appended none s = some s
appended (some p) s = some (p ++ s)

headers_join-ok :
    (k v : Str) (n : ℕ) (old : Option Str)
    → is_narrow k ≡ true
    → headers_join k (some v) n old ≡ ok (true, appended old (header_line k v))
unfolding headers_join
headers_join-ok k v n none h = rw (
  h,
  sprintf_s-ok ((length k + 1) * 2 + length v + 5) (header_line k v)
      (omega (arith, length-header_line k v)),
)
headers_join-ok k v n (some p) h = rw (
  h,
  sprintf_s-ok ((length k + 1) * 2 + length v + 5) (header_line k v)
      (omega (arith, length-header_line k v)),
  wcscat_s-ok p (length p + length (header_line k v) + 1) (header_line k v) (omega arith),
)

traverse-text :
    (hs : List (Str × Str)) (p : Str)
    → NarrowKeys hs
    → traverse_loop (entries hs) headers_join (some p) ≡ ok (some (p ++ header_text hs))
unfolding traverse_loop
traverse-text [] p _ = ap (λ s. ok (some s)) (sym (append-nil p))
traverse-text ((k, v) ∷ hs) p (h, w) = rw (headers_join-ok k v (length v + 1) (some p) h) (
    traverse-text hs (p ++ header_line k v) w
    ∙ ap (λ s. ok (some s)) (append_assoc p (header_line k v) (header_text hs)))

-- `NULL` for no header.
joined : List (Str × Str) → Option Str
joined [] = none
joined (h ∷ hs) = some (header_text (h ∷ hs))

traverse-joined :
    (hs : List (Str × Str))
    → NarrowKeys hs
    → traverse_loop (entries hs) headers_join none ≡ ok (joined hs)
unfolding traverse_loop joined
traverse-joined [] _ = refl
traverse-joined ((k, v) ∷ hs) (h, w) =
    rw (headers_join-ok k v (length v + 1) none h) (traverse-text hs (header_line k v) w)

append_headers-ok :
    (s : Str) (hs : List (Str × Str)) → append_headers s (joined hs) ≡ ok (s ++ header_text hs)
unfolding joined
append_headers-ok s [] = ap ok (sym (append-nil s))
append_headers-ok s (h ∷ hs) =
    wcscat_s-ok s (length s + length (header_text (h ∷ hs)) + 1) (header_text (h ∷ hs))
      (omega arith)

length-request_line : (m : ℕ) (p v : Str) → length (request_line m p v) < length p + length v + 14
length-request_line m p v =
    let rest = p ++ (codes " HTTP/" ++ (v ++ http_newline)) in
    ground (
      arith,
      length-append (codes "GET") (b' ' ∷ rest),
      length-append (codes "POST") (b' ' ∷ rest),
      length-append p (codes " HTTP/" ++ (v ++ http_newline)),
      length-append (codes " HTTP/") (v ++ http_newline),
      length-append v http_newline,
    )

-- A request with a path, whose headers are the entries of `hs` with keys that `%ls` can print, is
-- written with no buffer overrun, as the request line, the header lines in order, and an empty
-- line. The body is not part of the text.
pub http_request_tostr-text :
    (r : HttpRequest) (p : Str) (hs : List (Str × Str))
    → r.path ≡ some p
    → r.headers.first ≡ entries hs
    → NarrowKeys hs
    → http_request_tostr r
      ≡ ok ((request_line r.method p r.version ++ header_text hs) ++ http_newline)
unfolding http_request_tostr
http_request_tostr-text r p hs hp hh w =
    let line = request_line r.method p r.version in
    rw
      (
        hp,
        sprintf_s-ok (length p + length r.version + 14) line
            (length-request_line r.method p r.version),
        hh,
        traverse-joined hs w,
        append_headers-ok line hs,
      )
      (wcscat_s-ok (line ++ header_text hs) (length (line ++ header_text hs) + 3) http_newline
        (omega arith))
