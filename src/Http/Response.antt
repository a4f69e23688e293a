-- ===== src/Http/Response.antt =====
-- `http_response_fromstr`. `ctow` stands for the conversion of utility.c through the system's ANSI
-- code page; `tmp` is the text that is still to be read.
use netdisk4tc.Base.{
  ℕ, zero, suc, ◌+◌, Bool, ◌||◌, Option, none, some, [], ◌∷◌, if◌then◌else◌, leb, ◌==◌, length,
  take, drop, Str, Run, ok, fault, ◌>>=◌, ◌>>◌, expect, deref,
}
use netdisk4tc.Crt.{strcspn, strtok, atoi}
use netdisk4tc.Dictionary.{all_succeed, dict_initialize, dict_set_element}
use netdisk4tc.Http.{Headers, HttpResponse}

-- The sets `HTTP_NEWLINE` and `": "` of `strcspn`.
abbrev pub in_newline : ℕ → Bool
in_newline c = c == 13 || c == 10

abbrev pub in_colon_space : ℕ → Bool
in_colon_space c = c == b':' || c == b' '

-- `p + n` inside the block of the string `p`, its terminator included.
unfoldable pub advance : Str → ℕ → Run Str
advance p n = do expect (leb n (length p)); ok (drop n p)

-- One line: the text before the first newline character, and what follows two characters further.
-- A pointer behind the end of the block is a fault where it is computed, not where it is read.
unfoldable pub take_line : Str → Run (Str × Str)
unfolding advance strcspn
take_line tmp = do let i = strcspn in_newline tmp; tmp' ← advance tmp (i + 2); ok (take i tmp, tmp')

-- The status line: `none` where the function gives up and returns `NULL`; otherwise the version, the
-- status code and the message. `strtok` leaves the first word of the line terminated.
unfoldable pub version_of : Str → Option Str
unfolding strtok
version_of word = let (_, rest) = strtok b'/' word in (strtok b' ' rest).0

abbrev with_version : ℕ → Str → Option Str → Option (Str × ℕ × Str)
with_version code msg none = none
with_version code msg (some version) = some (version, code, msg)

abbrev with_message : ℕ → Option Str → Option Str → Run (Option (Str × ℕ × Str))
with_message code none word = ok none
with_message code (some msg) word = do
  first ← deref word
  ok (with_version code msg (version_of first))

unfoldable pub parse_status : Str → Run (Option (Str × ℕ × Str))
unfolding strtok atoi version_of
parse_status line = do
  let (word, rest) = strtok b' ' line
  let (number, rest') = strtok b' ' rest
  digits ← deref number
  if atoi digits == 0 then ok none else with_message (atoi digits) (strtok b' ' rest').0 word

module _ (ctow : Str → Str) where
  -- One header line that is not empty.
  unfoldable pub read_header : Headers → Str → Run Headers
  unfolding advance dict_set_element strcspn
  read_header headers line = do
    let i = strcspn in_colon_space line
    val ← advance line (i + 2)
    (_, headers', _) ←
        dict_set_element headers (ctow (take i line)) val (length val + 1) all_succeed
    ok headers'

  -- The loop over the header lines: the headers, and the text behind the empty line. Each round
  -- takes at least two characters, so as many rounds as there are characters, and one more, are
  -- enough.
  unfoldable pub header_loop : ℕ → Headers → Str → Run (Headers × Str)
  unfolding take_line read_header
  header_loop zero headers tmp = fault
  header_loop (suc fuel) headers tmp = do
    (line, tmp') ← take_line tmp
    elim line [
      | [] ↦ ok (headers, tmp')
      | c ∷ cs ↦ (do headers' ← read_header headers (c ∷ cs); header_loop fuel headers' tmp')
    ]

  abbrev with_status : Option (Str × ℕ × Str) → Str → Run (Option HttpResponse)
  with_status none tmp = ok none
  with_status (some (version, code, msg)) tmp = do
    (headers, body) ← header_loop (length tmp + 1) dict_initialize tmp
    ok (
        some (record {
          version = version;
          status_code = code;
          status_msg = msg;
          headers = headers;
          body = body;
        }))

  unfoldable pub http_response_fromstr : Option Str → Run (Option HttpResponse)
  unfolding take_line parse_status header_loop dict_initialize
  http_response_fromstr none = ok none
  http_response_fromstr (some text) = do
    (line, tmp) ← take_line text
    status ← parse_status line
    with_status status tmp
