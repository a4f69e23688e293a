-- ===== src/Wrapper/Url.antt =====
-- The split of a URL, and `wp_http` from a script's table to the body of the response.
use netdisk4tc.Base.{
  ℕ, ◌+◌, ◌-◌, ◌≤◌, ◌≡◌, ◌≢◌, refl, ◌⊎◌, Bool, true, false, Option, some, [], ◌∷◌, ◌++◌, length,
  take-append, drop-append, le→leb, leb, length-append, arith, Str, codes, ok,
}
use netdisk4tc.Utility.{wcslcpy}
use netdisk4tc.Utility.Copy.{wcslcpy-take}
use netdisk4tc.Dictionary.{dict_initialize}
use netdisk4tc.Http.{HttpRequest}
use netdisk4tc.Http.StatusLine.{StatusLine}
use netdisk4tc.Wrapper.{no_call, host_end, set_url}

-- A host's name, and what follows it: nothing, a port or a path.
abbrev pub IsHost : Str → Type 0
IsHost [] = Unit
IsHost (c ∷ s) = (c ≢ b':') × (c ≢ b'/') × IsHost s

abbrev pub IsTail : Str → Type 0
IsTail [] = Unit
IsTail (c ∷ s) = (c ≡ b':') ⊎ (c ≡ b'/')

abbrev pub scheme : Bool → Str
scheme false = codes "http://"
scheme true = codes "https://"

abbrev pub default_port : Bool → ℕ
default_port false = 80
default_port true = 443

host_end-append :
    (host rest : Str) → IsHost host → IsTail rest → host_end (host ++ rest) ≡ length host
unfolding host_end
host_end-append [] [] _ _ = refl
host_end-append [] (c ∷ rest) _ h = ground arith
host_end-append (c ∷ host) rest (h, h', hs) r = ground (arith, host_end-append host rest hs r)

pred : (n : ℕ) → n + 1 - 1 ≡ n
pred n = omega arith

copied_host :
    (host rest : Str)
    → IsHost host
    → IsTail rest
    → wcslcpy (host_end (host ++ rest) + 1) (host ++ rest) (host_end (host ++ rest) + 1) ≡ ok host
copied_host host rest hh hr = rw (
  host_end-append host rest hh hr,
  wcslcpy-take (length host + 1) (host ++ rest) (length host + 1) (omega arith) (omega arith),
  pred (length host),
  take-append host rest,
)

long_enough :
    (n : ℕ) (ssl : Bool) (s : Str)
    → n ≤ length (scheme ssl)
    → leb n (length (scheme ssl ++ s)) ≡ true
long_enough n ssl s h =
    le→leb n (length (scheme ssl ++ s)) (omega (arith, length-append (scheme ssl) s))

abbrev new_request : Str → ℕ → Option Str → HttpRequest
new_request path method body = record {
  method = method;
  path = some path;
  version = codes "1.0";
  headers = dict_initialize;
  body = body;
}

-- A URL with either scheme: the host is what stands before the first colon or slash, the port is
-- the scheme's own, and everything behind the host, a port that is written there included, becomes
-- the path.
pub set_url-split :
    (ssl : Bool) (host rest : Str)
    → IsHost host
    → IsTail rest
    → set_url no_call (scheme ssl ++ (host ++ rest))
      ≡ ok (record no_call {
        host = some host;
        path = some rest;
        port = default_port ssl;
        is_ssl = ssl;
      })
unfolding set_url
set_url-split false host rest hh hr = rw (
  long_enough 4 false (host ++ rest) (omega arith),
  long_enough 7 false (host ++ rest) (omega arith),
  copied_host host rest hh hr,
  host_end-append host rest hh hr,
  drop-append host rest,
)
set_url-split true host rest hh hr = rw (
  long_enough 4 true (host ++ rest) (omega arith),
  long_enough 8 true (host ++ rest) (omega arith),
  copied_host host rest hh hr,
  host_end-append host rest hh hr,
  drop-append host rest,
)
