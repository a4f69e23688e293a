-- ===== src/Http/StatusLine.antt =====
-- What `http_response_fromstr` takes from the status line.
use netdisk4tc.Base.{
  ℕ, ◌<◌, ◌≡◌, ◌≢◌, ap, ◌∙◌, false, Option, none, some, [], ◌∷◌, ◌++◌, ◌==◌, append-nil, arith, Str,
  ok, ◌^◌, sym,
}
use netdisk4tc.Crt.{strtok, atoi}
use netdisk4tc.Crt.Token.{Without, is, strtok-append, strtok-all}
use netdisk4tc.Crt.Number.{Digits, value, atoi-Digits}
use netdisk4tc.Http.Response.{version_of, parse_status, in_newline}

-- A status line `proto/version code message`, with more words behind the message or none.
pub record StatusLine : Type 0 where
  pub proto : Str
  pub version : Str
  pub code : Str
  pub msg : Str
  pub more : Option Str

abbrev pub behind : Option Str → Str
behind none = []
behind (some s) = b' ' ∷ s

abbrev pub status_text : StatusLine → Str
status_text s =
    (s.proto ++ (b'/' ∷ s.version)) ++ (b' ' ∷ (s.code ++ (b' ' ∷ (s.msg ++ behind s.more))))

-- The protocol's name and the version are words without a slash in the name, the code is a positive
-- number that fits `int`, the message begins with a word, and there is no newline.
pub record IsStatusLine (s : StatusLine) : Type 0 where
  pub proto_word : Without (is b'/') s.proto
  pub proto_ne : s.proto ≢ []
  pub word : Without (is b' ') (s.proto ++ (b'/' ∷ s.version))
  pub version_word : Without (is b' ') s.version
  pub version_ne : s.version ≢ []
  pub code_digits : Digits s.code
  pub code_pos : 0 < value 0 s.code
  pub code_fits : value 0 s.code < 2 ^ 31
  pub msg_word : Without (is b' ') s.msg
  pub msg_ne : s.msg ≢ []
  pub one_line : Without in_newline (status_text s)

strtok-word :
    (s : Str) (more : Option Str)
    → Without (is b' ') s
    → s ≢ []
    → (strtok b' ' (s ++ behind more)).0 ≡ some s
strtok-word s none w ne = rw (append-nil, strtok-all b' ' s w ne)
strtok-word s (some r) w ne = rw (strtok-append b' ' s r w ne)

Digits-Without : (s : Str) → Digits s → Without (is b' ') s
Digits-Without [] _ = tt
Digits-Without (c ∷ s) (h, ds) = (ground arith, Digits-Without s ds)

append-ne_nil : (s : Str) (c : ℕ) (t : Str) → s ++ (c ∷ t) ≢ []
append-ne_nil [] c t e = cc
append-ne_nil (x ∷ s) c t e = cc

code-ne_nil : (s : Str) → 0 < value 0 s → s ≢ []
code-ne_nil [] h e = absurd (omega arith)
code-ne_nil (c ∷ s) h e = cc

version_of-word :
    (p v : Str)
    → Without (is b'/') p
    → p ≢ []
    → Without (is b' ') v
    → v ≢ []
    → version_of (p ++ (b'/' ∷ v)) ≡ some v
unfolding version_of
version_of-word p v wp np wv nv =
    rw (version_of, strtok-append b'/' p v wp np, strtok-all b' ' v wv nv)

pub parse_status-text :
    (s : StatusLine)
    → IsStatusLine s
    → parse_status (status_text s) ≡ ok (some (s.version, value 0 s.code, s.msg))
unfolding parse_status
parse_status-text s is =
    let rest = s.code ++ (b' ' ∷ (s.msg ++ behind s.more)) in
    let word = s.proto ++ (b'/' ∷ s.version) in
    let code_ne = code-ne_nil s.code is.code_pos in
    let code : atoi s.code ≡ value 0 s.code =
      ap atoi (sym (append-nil s.code))
      ∙ atoi-Digits s.code [] is.code_digits code_ne is.code_fits tt in
    let nonzero : (value 0 s.code == 0) ≡ false = ground (arith, is.code_pos) in
    rw (
      strtok-append b' ' word rest is.word (append-ne_nil s.proto b'/' s.version),
      strtok-append b' ' s.code (s.msg ++ behind s.more) (Digits-Without s.code is.code_digits)
          code_ne,
      code,
      nonzero,
      strtok-word s.msg s.more is.msg_word is.msg_ne,
      version_of-word s.proto s.version is.proto_word is.proto_ne is.version_word is.version_ne,
    )
