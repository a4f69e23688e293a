-- ===== src/Wrapper/Release.antt =====
-- What `wp_http` of netdisk4tc/wrapper.c has acquired and given back when it returns.
use netdisk4tc.Base.{
  ℕ, ◌≡◌, refl, inl, inr, Bool-cases, Option-cases, Bool, true, Option, none, some, List, [], ◌∷◌,
  ◌++◌, arith, if◌then◌else◌, ◌==◌, Str, Run, ok, fault, ◌>>=◌, deref,
}
use netdisk4tc.Http.{HttpResponse, Headers, HttpRequest, ht_ok}
use netdisk4tc.Http.Request.{http_request_create}
use netdisk4tc.Http.Connect.{
  Network, Connected, Event, open_socket, close_socket, http_connect, http_disconnect,
}
use netdisk4tc.Http.Lifecycle.{session}
use netdisk4tc.Http.Transfer.{Recv, Exchanged, http_request}
use netdisk4tc.Http.Release.{HttpRelease, freed_text, http_response_destory}
use netdisk4tc.Wrapper.{HttpCall, run_call, pushed}

-- What is pushed, what has been done with the connection, what has been given back, and the request,
-- which stays allocated.
pub record Called : Type 0 where
  pub result : Option Str
  pub events : List Event
  pub released : List HttpRelease
  pub request : Option HttpRequest

-- The copies of the fields are freed behind `http_connect`.
unfoldable pub freed_fields : HttpCall → List HttpRelease
freed_fields call = freed_text call.body ++ (freed_text call.host ++ freed_text call.path)

-- The request with the headers that `http_request` leaves.
abbrev with_headers : Option HttpRequest → Option Headers → Option HttpRequest
with_headers (some r) (some headers) = some (record r { headers = headers })
with_headers r _ = r

-- From the return of `http_request` on.
abbrev after_request : HttpCall → List Event → Option HttpRequest → Exchanged → Run Called
after_request call events request e =
    if e.code == ht_ok
    then (do
      response ← deref e.response
      r ← deref response
      ok (record {
        result = some r.body;
        events = events;
        released = freed_fields call ++ (http_response_destory (some r)).1;
        request = with_headers request e.headers;
      }))
    else ok (record {
      result = none;
      events = events;
      released = freed_fields call;
      request = with_headers request e.headers;
    })

-- `wp_http` once the table is read, with all that it gives back.
unfoldable pub http_call : (Str → Str) → Network → Bool → List Recv → HttpCall → Run Called
unfolding http_request_create http_connect http_disconnect http_request http_response_destory
    freed_fields
http_call ctow net init rs call = do
  host ← deref call.host
  let request = http_request_create call.path call.method call.body true
  let connected = http_connect net init none host call.port call.is_ssl
  if connected.code == ht_ok
      then (do
        e ← http_request ctow connected.connection request true rs
        after_request call (connected.events ++ (http_disconnect connected.connection).2) request e)
      else ok (record {
        result = none;
        events = connected.events;
        released = freed_fields call;
        request = request;
      })

result-after_request :
    (call : HttpCall) (events : List Event) (request : Option HttpRequest) (e : Run Exchanged)
    → ((e >>= after_request call events request) >>= λ (c : Called). ok c.result) ≡ (e >>= pushed)
result-after_request call events request fault = refl
result-after_request call events request (ok e) = ground arith

abbrev pub body_of : Option HttpResponse → Option Str
body_of none = none
body_of (some r) = some r.body

-- What a return behind `http_request` has given back.
abbrev Returned : HttpCall → List Event → Run Called → Type 0
Returned call events fault = Unit
Returned call events (ok c) =
    (c.events ≡ events)
    × ((response : Option HttpResponse) × (c.result ≡ body_of response)
        × (c.released ≡ freed_fields call ++ (http_response_destory response).1))
    × ((request : HttpRequest) × (c.request ≡ some request))

abbrev without : ℕ → List ℕ → List ℕ
without s [] = []
without s (x ∷ xs) = if s == x then without s xs else x ∷ without s xs

-- The sockets that are open behind the events.
abbrev pub open_after : List ℕ → List Event → List ℕ
open_after sockets [] = sockets
open_after sockets (open_socket s ∷ es) = open_after (s ∷ sockets) es
open_after sockets (close_socket (some s) ∷ es) = open_after (without s sockets) es
open_after sockets (_ ∷ es) = open_after sockets es

module _ (ctow : Str → Str) (net : Network) (init : Bool) (rs : List Recv) (call : HttpCall) where
  abbrev connected : Str → Connected
  connected host = http_connect net init none host call.port call.is_ssl

  http_call-result :
      (http_call ctow net init rs call >>= λ (c : Called). ok c.result)
      ≡ run_call ctow net init rs call
  unfolding http_call run_call
  http_call-result = elim (Option-cases call.host) [
    | inl no_host ↦ rw no_host
    | inr (host, e) ↦ rw e (elim (Bool-cases ((connected host).code == ht_ok)) [
      | inl joined ↦ rw joined (
          result-after_request (record call { host = some host })
            ((connected host).events ++ (http_disconnect (connected host).connection).2)
            (http_request_create call.path call.method call.body true)
            (http_request ctow (connected host).connection
              (http_request_create call.path call.method call.body true) true rs))
      | inr refused ↦ rw refused
    ])
  ]

  abbrev disconnected : Str → List Event
  disconnected host = session net init none host call.port call.is_ssl
