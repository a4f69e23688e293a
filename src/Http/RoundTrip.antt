-- ===== src/Http/RoundTrip.antt =====
-- A response that is laid out as the protocol says is read back.
use netdisk4tc.Base.{
  ℕ, zero, suc, ◌+◌, ◌≤◌, ◌<◌, ◌≡◌, refl, ap, sym, ◌∙◌, none, some, List, [], ◌∷◌, ◌++◌, length,
  length-append, drop-length_add, take-append, le→leb, append_assoc, append-nil, arith, Str, ok,
}
use netdisk4tc.Crt.Token.{Without, is, strcspn-append}
use netdisk4tc.Crt.Number.{value}
use netdisk4tc.Dictionary.{DictEntry, all_succeed, find_entry, dict_initialize}
use netdisk4tc.Dictionary.Insert.{dict_set_element-absent}
use netdisk4tc.Dictionary.Invariant.{NodupKeys, key-fresh}
use netdisk4tc.Http.{Headers}
use netdisk4tc.Http.Request.{http_newline, header_line}
use netdisk4tc.Http.StatusLine.{StatusLine, IsStatusLine, status_text, parse_status-text}
use netdisk4tc.Http.Text.{header_entry, entries, header_text}
use netdisk4tc.Http.Response.{
  in_newline, in_colon_space, take_line, read_header, header_loop, http_response_fromstr,
}

pub take_line-append :
    (s rest : Str) → Without in_newline s → take_line (s ++ (13 ∷ 10 ∷ rest)) ≡ ok (s, rest)
unfolding take_line
take_line-append s rest w = rw (
  strcspn-append in_newline s (10 ∷ rest) 13 w refl,
  le→leb (length s + 2) (length (s ++ (13 ∷ 10 ∷ rest)))
      (omega (arith, length-append s (13 ∷ 10 ∷ rest))),
  take-append s (13 ∷ 10 ∷ rest),
  drop-length_add s (13 ∷ 10 ∷ rest) (length s + 2) 2 refl,
)

length-zero : (n : ℕ) → n ≡ n + 0
length-zero n = omega arith

length-suc : (n m : ℕ) → n + 1 + m ≡ n + suc m
length-suc n m = omega arith

-- Header lines that the parser can take apart: no newline, and no colon or space in a name.
abbrev pub IsHeaderList : List (Str × Str) → Type 0
IsHeaderList [] = Unit
IsHeaderList ((k, v) ∷ hs) =
    Without in_colon_space k × Without in_newline (k ++ (b':' ∷ b' ' ∷ v)) × IsHeaderList hs

module _ (ctow : Str → Str) where
  -- The headers with their names as the dictionary has them.
  abbrev pub widen : List (Str × Str) → List (Str × Str)
  widen [] = []
  widen ((k, v) ∷ hs) = (ctow k, v) ∷ widen hs

  abbrev with_entry : Headers → DictEntry Str (Unit {0}) → Headers
  with_entry d e = record { first = d.first ++ (e ∷ []); length = d.length + 1 }

  read_header-absent :
      (d : Headers) (k v : Str)
      → Without in_colon_space k
      → find_entry (ctow k) d.first ≡ none
      → read_header ctow d (k ++ (b':' ∷ b' ' ∷ v)) ≡ ok (with_entry d (header_entry (ctow k) v))
  unfolding read_header
  read_header-absent d k v w new = rw (
    strcspn-append in_colon_space k (b' ' ∷ v) b':' w refl,
    le→leb (length k + 2) (length (k ++ (b':' ∷ b' ' ∷ v)))
        (omega (arith, length-append k (b':' ∷ b' ' ∷ v))),
    take-append k (b':' ∷ b' ' ∷ v),
    drop-length_add k (b':' ∷ b' ' ∷ v) (length k + 2) 2 refl,
    dict_set_element-absent d (ctow k) v (length v + 1) all_succeed new,
  )

  abbrev all_added : Headers → List (Str × Str) → Headers
  all_added d hs = record { first = d.first ++ entries (widen hs); length = d.length + length hs }

  take_line-header :
      (k v rest : Str)
      → Without in_newline (k ++ (b':' ∷ b' ' ∷ v))
      → take_line (header_line k v ++ rest) ≡ ok (k ++ (b':' ∷ b' ' ∷ v), rest)
  take_line-header k v rest nl =
      ap take_line (simp append_assoc) ∙ take_line-append (k ++ (b':' ∷ b' ' ∷ v)) rest nl

  header_loop-step :
      (fuel : ℕ) (d : Headers) (k v rest : Str)
      → Without in_colon_space k
      → Without in_newline (k ++ (b':' ∷ b' ' ∷ v))
      → find_entry (ctow k) d.first ≡ none
      → header_loop ctow (suc fuel) d (header_line k v ++ rest)
        ≡ header_loop ctow fuel (with_entry d (header_entry (ctow k) v)) rest
  unfolding header_loop
  header_loop-step fuel d [] v rest w nl new =
      rw (take_line-header [] v rest nl, read_header-absent d [] v w new)
  header_loop-step fuel d (c ∷ k) v rest w nl new =
      rw (take_line-header (c ∷ k) v rest nl, read_header-absent d (c ∷ k) v w new)

  header_loop-end :
      (fuel : ℕ) (d : Headers) (body : Str)
      → header_loop ctow (suc fuel) d (http_newline ++ body) ≡ ok (d, body)
  unfolding header_loop
  header_loop-end fuel d body = rw (take_line-append [] body tt)

  -- Every header line adds its entry, as long as no name stands twice.
  header_loop-added :
      (hs : List (Str × Str)) (fuel : ℕ) (d : Headers) (body : Str)
      → IsHeaderList hs
      → NodupKeys (d.first ++ entries (widen hs))
      → length hs < fuel
      → header_loop ctow fuel d (header_text hs ++ (http_newline ++ body))
        ≡ ok (all_added d hs, body)
  header_loop-added hs zero d body _ _ h = absurd (omega arith)
  header_loop-added [] (suc fuel) d body _ _ _ =
      header_loop-end fuel d body
      ∙ ap (λ (x : Headers). ok (x, body))
          (λ i. record { first = sym (append-nil d.first) i; length = length-zero d.length i })
  header_loop-added ((k, v) ∷ hs) (suc fuel) d body (w, nl, is) nodup h =
      let e = header_entry (ctow k) v in
      ap (header_loop ctow (suc fuel) d)
        (append_assoc (header_line k v) (header_text hs) (http_newline ++ body))
      ∙ header_loop-step fuel d k v (header_text hs ++ (http_newline ++ body)) w nl
          (key-fresh d.first e (entries (widen hs)) nodup)
      ∙ header_loop-added hs fuel (with_entry d e) body is (rw append_assoc nodup) (omega arith)
      ∙ ap (λ (x : Headers). ok (x, body))
          (λ i. record {
            first = append_assoc d.first (e ∷ []) (entries (widen hs)) i;
            length = length-suc d.length (length hs) i;
          })

length-header_text : (hs : List (Str × Str)) → length hs ≤ length (header_text hs)
length-header_text [] = omega arith
length-header_text ((k, v) ∷ hs) = omega (
  arith,
  length-header_text hs,
  length-append (header_line k v) (header_text hs),
  length-append k (b':' ∷ b' ' ∷ (v ++ http_newline)),
)

header_loop-initial :
    (ctow : Str → Str) (hs : List (Str × Str)) (body : Str)
    → IsHeaderList hs
    → NodupKeys (entries (widen ctow hs))
    → header_loop ctow
        (length (header_text hs ++ (http_newline ++ body)) + 1)
        dict_initialize
        (header_text hs ++ (http_newline ++ body))
      ≡ ok (record { first = entries (widen ctow hs); length = length hs }, body)
unfolding dict_initialize
header_loop-initial ctow hs body is nodup =
    header_loop-added ctow hs (length (header_text hs ++ (http_newline ++ body)) + 1)
      dict_initialize body is nodup
      (omega (arith, length-header_text hs, length-append (header_text hs) (http_newline ++ body)))
    ∙ ap
        (λ (n : ℕ).
          let h : Headers = record { first = entries (widen ctow hs); length = n } in ok (h, body))
        (omega arith)

-- The text of a response.
abbrev pub response_text : StatusLine → List (Str × Str) → Str → Str
response_text s hs body =
    status_text s ++ (http_newline ++ (header_text hs ++ (http_newline ++ body)))

-- A response of a status line, header lines in the form that `headers_join` writes and with names
-- that stay distinct as dictionary keys, an empty line and any body is read back, with no access
-- outside a block: the version, the code as a number, the first word of the message, each header
-- with its name and value in order, and the body unchanged.
pub http_response_fromstr-text :
    (ctow : Str → Str) (s : StatusLine) (hs : List (Str × Str)) (body : Str)
    → IsStatusLine s
    → IsHeaderList hs
    → NodupKeys (entries (widen ctow hs))
    → http_response_fromstr ctow (some (response_text s hs body))
      ≡ ok (
          some (record {
            version = s.version;
            status_code = value 0 s.code;
            status_msg = s.msg;
            headers = record { first = entries (widen ctow hs); length = length hs };
            body = body;
          }))
unfolding http_response_fromstr
http_response_fromstr-text ctow s hs body line names nodup = rw (
  take_line-append (status_text s) (header_text hs ++ (http_newline ++ body)) line.one_line,
  parse_status-text s line,
  header_loop-initial ctow hs body names nodup,
)
