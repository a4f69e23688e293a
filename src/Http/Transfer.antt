-- ===== src/Http/Transfer.antt =====
-- `http_recv`, `http_send` and `http_request`.
use netdisk4tc.Base.{
  ℕ, ◌+◌, Bool, not, ◌||◌, Option, none, some, List, [], ◌∷◌, ◌++◌, if◌then◌else◌, ltb, ◌==◌,
  length, Str, codes, Run, ok, ◌>>=◌, ◌>>◌, expect, deref,
}
use netdisk4tc.Crt.{wcscat_s}
use netdisk4tc.Dictionary.{all_succeed, dict_set_element}
use netdisk4tc.Http.{
  Headers, HttpRequest, HttpResponse, ht_ok, ht_invalid_argument, ht_resource_unavailable,
}
use netdisk4tc.Http.Connect.{HttpConnection}
use netdisk4tc.Http.Request.{http_request_tostr}
use netdisk4tc.Http.Response.{http_response_fromstr}

abbrev pub recv_buffsize : ℕ
recv_buffsize = 4096

-- What one `recv` or `SSL_read` delivers: bytes, none of them at the end of the stream, or -1.
pub data Recv : Type 0 where
  chunk : Str → Recv
  failed : Recv

-- `strlen(buff)` over the bytes received: the string before the first zero byte, if there is one.
unfoldable pub string_in : Str → Option Str
string_in [] = none
string_in (c ∷ cs) =
    let rest = string_in cs in
    if c == 0 then some [] else elim rest [ none ↦ none | some s ↦ some (c ∷ s) ]

-- The string in `buff` after a chunk: a terminator is stored only where the chunk leaves room for
-- it, and a full buffer with no zero byte is read past its end.
unfoldable pub received : Str → Run Str
unfolding string_in
received bs =
    if ltb (length bs) recv_buffsize
    then deref (string_in (bs ++ (0 ∷ [])))
    else (do expect (length bs == recv_buffsize); deref (string_in bs))

abbrev pub append_tmp : Option Str → Str → Run Str
append_tmp none s = ok s
append_tmp (some p) s = wcscat_s p (length p + length s + 1) s

-- The receiving loop over the deliveries to come; where they end the peer has closed. `buff` is the
-- string in the buffer, `none` while nothing has been written there. The size of the buffer is a
-- `size_t`, so -1 is not below it: behind a failing call no terminator is stored, and the string
-- that the buffer still holds is appended once more.
unfoldable pub recv_loop : List Recv → Option Str → Option Str → Run (Option Str)
unfolding received wcscat_s
recv_loop [] buff tmp = ok tmp
recv_loop (failed ∷ rs) buff tmp = do
  s ← deref buff
  tmp' ← append_tmp tmp s
  recv_loop rs buff (some tmp')
recv_loop (chunk [] ∷ rs) buff tmp = ok tmp
recv_loop (chunk (b ∷ bs) ∷ rs) buff tmp = do
  s ← received (b ∷ bs)
  tmp' ← append_tmp tmp s
  recv_loop rs (some s) (some tmp')

-- A text of the request's headers.
unfoldable pub set_header : Headers → Str → Str → Run Headers
unfolding dict_set_element
set_header headers key val = do
  (_, headers', _) ← dict_set_element headers key val (length val + 1) all_succeed
  ok headers'

-- The `Host` header. For a port other than 80 and 443 the port is printed with `%s`: it is used as
-- a pointer.
unfoldable pub host_header : HttpConnection → Headers → Run Headers
unfolding set_header
host_header c headers = do
  host ← deref c.host
  expect (c.port == 80 || c.port == 443)
  set_header headers (codes "Host") host

-- What a call of `http_request` leaves: the result, `*response` and the request's headers
-- where they change, and the bytes sent.
pub record Exchanged : Type 0 where
  pub code : ℕ
  pub response : Option (Option HttpResponse)
  pub headers : Option Headers
  pub sent : Str

abbrev refused : ℕ → Run Exchanged
refused code = ok (record { code = code; response = none; headers = none; sent = [] })

module _ (ctow : Str → Str) where
  unfoldable pub exchange : HttpConnection → HttpRequest → List Recv → Run Exchanged
  unfolding host_header http_request_tostr recv_loop http_response_fromstr
  exchange c request rs = do
    headers ← host_header c request.headers
    headers' ← set_header headers (codes "Connection") (codes "Close")
    text ← http_request_tostr (record request { headers = headers' })
    tmp ← recv_loop rs none none
    response ← http_response_fromstr ctow tmp
    ok (record {
      code = ht_ok;
      response = some response;
      headers = some headers';
      sent = text ++ (0 ∷ []);
    })

  -- `response_ptr` says that `response` is not `NULL`.
  unfoldable pub http_request :
      Option HttpConnection → Option HttpRequest → Bool → List Recv → Run Exchanged
  unfolding exchange
  http_request none request response_ptr rs = refused ht_invalid_argument
  http_request (some c) none response_ptr rs = refused ht_invalid_argument
  http_request (some c) (some request) response_ptr rs =
      if not response_ptr
      then refused ht_invalid_argument
      else if not (c.status == ht_ok)
      then refused ht_resource_unavailable
      else exchange c request rs
