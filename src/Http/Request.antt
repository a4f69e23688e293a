-- ===== src/Http/Request.antt =====
-- `headers_join`, `http_request_create` and `http_request_tostr`.
use netdisk4tc.Base.{
  ℕ, ◌+◌, ◌*◌, Bool, true, ◌&&◌, Option, none, some, [], ◌∷◌, ◌++◌, if◌then◌else◌, ltb, ◌==◌,
  length, Str, codes, Run, ok, ◌>>=◌, ◌>>◌, expect, deref,
}
use netdisk4tc.Crt.{sprintf_s, wcscat_s}
use netdisk4tc.Dictionary.{dict_initialize, dict_traverse}
use netdisk4tc.Http.{HttpRequest, http_method_get}

-- `HTTP_NEWLINE`.
abbrev pub http_newline : Str
http_newline = 13 ∷ 10 ∷ []

-- A wide text that `%ls` can print in the C locale.
unfoldable pub is_narrow : Str → Bool
is_narrow [] = true
is_narrow (c ∷ s) = ltb c 256 && is_narrow s

-- The text of `"%ls: %s%s"`.
abbrev pub header_line : Str → Str → Str
header_line key val = key ++ (b':' ∷ b' ' ∷ (val ++ http_newline))

abbrev pub join_data : Option Str → Str → Run (Option Str)
join_data none line = ok (some line)
join_data (some p) line = do out ← wcscat_s p (length p + length line + 1) line; ok (some out)

-- The enumerator `headers_join`; the state is `*data`. `WCS_SIZEOF(key)` is twice the length with
-- the terminator. A key that `%ls` cannot print is outside the model.
unfoldable pub headers_join : Str → Option Str → ℕ → Option Str → Run (Bool × Option Str)
unfolding sprintf_s wcscat_s is_narrow
headers_join key value size old = do
  val ← deref value
  expect (is_narrow key)
  line ← sprintf_s ((length key + 1) * 2 + length val + 5) (header_line key val)
  joined ← join_data old line
  ok (true, joined)

-- The flag says whether `malloc` succeeds. `_strdup` of `NULL` is `NULL`.
unfoldable pub http_request_create : Option Str → ℕ → Option Str → Bool → Option HttpRequest
unfolding dict_initialize
http_request_create path method body alloc =
    if alloc
    then some (record {
      method = method;
      path = path;
      version = codes "1.0";
      headers = dict_initialize;
      body = body;
    })
    else none

-- The text of `"%s %s HTTP/%s%s"`.
abbrev pub request_line : ℕ → Str → Str → Str
request_line method path version =
    (if method == http_method_get then codes "GET" else codes "POST")
    ++ (b' ' ∷ (path ++ (codes " HTTP/" ++ (version ++ http_newline))))

abbrev pub append_headers : Str → Option Str → Run Str
append_headers ret none = ok ret
append_headers ret (some headers) = wcscat_s ret (length ret + length headers + 1) headers

unfoldable pub http_request_tostr : HttpRequest → Run Str
unfolding headers_join dict_traverse
http_request_tostr request = do
  path ← deref request.path
  ret ←
      sprintf_s (length path + length request.version + 14)
        (request_line request.method path request.version)
  headers ← dict_traverse request.headers headers_join none
  ret' ← append_headers ret headers
  wcscat_s ret' (length ret' + 3) http_newline
