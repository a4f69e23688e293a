-- ===== src/Http/Exchange.antt =====
-- `http_request` from the request's text to the parsed response.
use netdisk4tc.Base.{
  ℕ, ◌+◌, ◌<◌, ◌≡◌, ◌≢◌, refl, ap, sym, ◌∙◌, true, Option, none, some, List, [], ◌∷◌, ◌++◌, lt→ltb,
  length, append_assoc, append-nil, arith, Str, codes, ok, fault,
}
use netdisk4tc.Utility.Trim.{NoNul}
use netdisk4tc.Http.{Headers, HttpRequest, ht_ok}
use netdisk4tc.Http.Request.{http_newline, request_line}
use netdisk4tc.Http.Text.{entries, header_text, wcscat_s-ok}
use netdisk4tc.Http.StatusLine.{StatusLine}
use netdisk4tc.Http.Connect.{HttpConnection}
use netdisk4tc.Http.Transfer.{
  recv_buffsize, Recv, chunk, string_in, received, recv_loop, http_request,
}

-- A chunk that the receiving loop can handle: not empty, shorter than the buffer, no zero byte.
abbrev pub IsChunk : Str → Type 0
IsChunk bs = (bs ≢ []) × (length bs < recv_buffsize) × NoNul bs

abbrev pub Chunks : List Str → Type 0
Chunks [] = Unit
Chunks (c ∷ cs) = IsChunk c × Chunks cs

abbrev pub chunks : List Str → List Recv
chunks [] = []
chunks (c ∷ cs) = chunk c ∷ chunks cs

abbrev pub flat : List Str → Str
flat [] = []
flat (c ∷ cs) = c ++ flat cs

string_in-append : (s : Str) → NoNul s → string_in (s ++ (0 ∷ [])) ≡ some s
unfolding string_in
string_in-append [] _ = refl
string_in-append (c ∷ s) (h, n) = ground (arith, string_in-append s n)

received-chunk : (s : Str) → IsChunk s → received s ≡ ok s
unfolding received
received-chunk s (_, h, n) = rw (lt→ltb (length s) recv_buffsize h, string_in-append s n)

recv_loop-chunk :
    (s : Str) (rs : List Recv) (buff : Option Str) (p : Str)
    → IsChunk s
    → recv_loop (chunk s ∷ rs) buff (some p) ≡ recv_loop rs (some s) (some (p ++ s))
unfolding recv_loop
recv_loop-chunk [] rs buff p h = absurd (h.0 refl)
recv_loop-chunk (c ∷ s) rs buff p h =
    rw (
      received-chunk (c ∷ s) h,
      wcscat_s-ok p (length p + length (c ∷ s) + 1) (c ∷ s) (omega arith),
    )

recv_loop-first :
    (s : Str) (rs : List Recv)
    → IsChunk s
    → recv_loop (chunk s ∷ rs) none none ≡ recv_loop rs (some s) (some s)
unfolding recv_loop
recv_loop-first [] rs h = absurd (h.0 refl)
recv_loop-first (c ∷ s) rs h = rw (received-chunk (c ∷ s) h)

-- The last of the chunks, which the buffer holds.
abbrev pub last_of : Str → List Str → Str
last_of c [] = c
last_of c (d ∷ cs) = last_of d cs

recv_loop-chunks :
    (b : Str) (cs : List Str) (rs : List Recv) (p : Str)
    → Chunks cs
    → recv_loop (chunks cs ++ rs) (some b) (some p)
      ≡ recv_loop rs (some (last_of b cs)) (some (p ++ flat cs))
recv_loop-chunks b [] rs p _ = ap (λ (s : Str). recv_loop rs (some b) (some s)) (sym (append-nil p))
recv_loop-chunks b (c ∷ cs) rs p (h, w) =
    recv_loop-chunk c (chunks cs ++ rs) (some b) p h
    ∙ recv_loop-chunks c cs rs (p ++ c) w
    ∙ ap (λ (s : Str). recv_loop rs (some (last_of c cs)) (some s)) (append_assoc p c (flat cs))

recv_loop-all :
    (c : Str) (cs : List Str) (rs : List Recv)
    → Chunks (c ∷ cs)
    → recv_loop (chunks (c ∷ cs) ++ rs) none none
      ≡ recv_loop rs (some (last_of c cs)) (some (flat (c ∷ cs)))
recv_loop-all c cs rs (h, w) = recv_loop-first c (chunks cs ++ rs) h ∙ recv_loop-chunks c cs rs c w

-- However a text arrives in chunks, each shorter than the buffer and with no zero byte, the loop
-- ends with the whole text.
pub recv_loop-flat :
    (c : Str) (cs : List Str)
    → Chunks (c ∷ cs)
    → recv_loop (chunks (c ∷ cs)) none none ≡ ok (some (flat (c ∷ cs)))
unfolding recv_loop
recv_loop-flat c cs w =
    ap (λ (rs : List Recv). recv_loop rs none none) (sym (append-nil (chunks (c ∷ cs))))
    ∙ recv_loop-all c cs [] w

-- The headers of a new request once `http_request` has set its own.
abbrev pub own_headers : Str → List (Str × Str)
own_headers host = (codes "Host", host) ∷ (codes "Connection", codes "Close") ∷ []

abbrev pub headers_of : List (Str × Str) → Headers
headers_of hs = record { first = entries hs; length = length hs }

-- The text of the request that `http_request` sends for a new request.
abbrev pub sent_text : ℕ → Str → Str → Str
sent_text method path host =
    (request_line method path (codes "1.0") ++ header_text (own_headers host)) ++ http_newline

module _ (ctow : Str → Str) where
  -- Over an open connection to a port other than 80 and 443 every request faults, since the number
  -- of the port is used as a pointer.
  http_request-other_port :
      (c : HttpConnection) (r : HttpRequest) (rs : List Recv)
      → c.status ≡ ht_ok
      → c.port ≢ 80
      → c.port ≢ 443
      → http_request ctow (some c) (some r) true rs ≡ fault
  unfolding http_request
  http_request-other_port c r rs hst h80 h443 = ground arith
