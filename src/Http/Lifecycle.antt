-- ===== src/Http/Lifecycle.antt =====
-- What `http_connect` acquires and gives back, on every outcome.
use netdisk4tc.Base.{
  ℕ, ◌+◌, ◌≡◌, ◌≢◌, Bool, true, not, ◌&&◌, ◌||◌, Option, none, some, List, [], ◌∷◌, ◌++◌, ◌==◌,
  false, if◌then◌else◌, Str, arith,
}
use netdisk4tc.Http.{ht_ok, ht_host_unavailable}
use netdisk4tc.Http.Connect.{
  Network, Event, malloc_conn, free_conn, ssl_library_init, new_ssl, free_ssl, dup_host, free_host,
  open_socket, close_socket, HttpConnection, http_connect, http_disconnect,
}

-- The blocks and objects of a connection.
pub data Resource : Type 0 where
  conn ssl host : Resource

abbrev pub acquires : Resource → Event → ℕ
acquires conn malloc_conn = 1
acquires ssl new_ssl = 1
acquires host dup_host = 1
acquires _ _ = 0

abbrev pub frees : Resource → Event → ℕ
frees conn free_conn = 1
frees ssl free_ssl = 1
frees host free_host = 1
frees _ _ = 0

abbrev pub total : (Event → ℕ) → List Event → ℕ
total f [] = 0
total f (e ∷ es) = f e + total f es

abbrev pub opened : List Event → List ℕ
opened [] = []
opened (open_socket s ∷ es) = s ∷ opened es
opened (_ ∷ es) = opened es

-- The address that is connected to.
abbrev pub address : Network → Str → ℕ
address net name = elim (net.inet_addr name) [
  | some ip ↦ ip
  | none ↦ elim (net.gethostbyname name) [ some ip ↦ ip | none ↦ 0 ]
]

abbrev pub initialises : Event → ℕ
initialises ssl_library_init = 1
initialises _ = 0

-- A call that fails for another reason than a host that cannot be resolved leaves `*connection` as
-- it was, and has given back every block and object that it acquired.
pub http_connect-gives_back :
    (net : Network) (init : Bool) (old : Option HttpConnection) (name : Str) (port : ℕ)
    (is_ssl : Bool) (r : Resource)
    → (http_connect net init old name port is_ssl).code ≢ ht_ok
    → (http_connect net init old name port is_ssl).code ≢ ht_host_unavailable
    → ((http_connect net init old name port is_ssl).connection ≡ old)
      × (total (acquires r) (http_connect net init old name port is_ssl).events
          ≡ total (frees r) (http_connect net init old name port is_ssl).events)
unfolding http_connect
http_connect-gives_back net init old name port is_ssl r ne ne' = ground arith

-- Neither call finds an address for the host.
abbrev pub unresolved : Network → Str → Bool
unresolved net name = elim (net.inet_addr name) [
  | some _ ↦ false
  | none ↦ elim (net.gethostbyname name) [ some _ ↦ false | none ↦ true ]
]

-- What a call that finds no address keeps of a resource.
abbrev pub kept : Bool → Resource → ℕ
kept is_ssl conn = 1
kept is_ssl ssl = if is_ssl then 1 else 0
kept is_ssl host = 0

-- A call that fails, for whatever reason, leaves `*connection` as it was, and has given back each
-- block and object as often as it acquired it, except where the block of the connection is there
-- and no address is found: then, and only then, the result is `HT_HOST_UNAVAILABLE`, and the block
-- and, with SSL, its objects stay allocated.
pub http_connect-failing :
    (net : Network) (init : Bool) (old : Option HttpConnection) (name : Str) (port : ℕ)
    (is_ssl : Bool) (r : Resource)
    → (http_connect net init old name port is_ssl).code ≢ ht_ok
    → ((http_connect net init old name port is_ssl).connection ≡ old)
      × (((http_connect net init old name port is_ssl).code == ht_host_unavailable)
          ≡ (net.conn_block && unresolved net name))
      × (total (acquires r) (http_connect net init old name port is_ssl).events
          ≡ total (frees r) (http_connect net init old name port is_ssl).events
            + (if net.conn_block && unresolved net name then kept is_ssl r else 0))
unfolding http_connect
http_connect-failing net init old name port is_ssl r ne = ground arith

abbrev pub closed : List Event → List (Option ℕ)
closed [] = []
closed (close_socket s ∷ es) = s ∷ closed es
closed (_ ∷ es) = closed es

-- The events of a successful connect and of the disconnect that follows.
abbrev pub session : Network → Bool → Option HttpConnection → Str → ℕ → Bool → List Event
session net init old name port is_ssl =
    let r = http_connect net init old name port is_ssl in
    r.events ++ (http_disconnect r.connection).2

-- A connect that succeeds hands over a usable connection to the host and port asked for, at the
-- address that `inet_addr` gives or, where it gives none, `gethostbyname`, on the new socket, with
-- SSL as asked for; and with the disconnect that follows, every block and object is given back once,
-- and the one socket that was opened is the one that is closed.
pub http_disconnect-http_connect :
    (net : Network) (init : Bool) (old : Option HttpConnection) (name : Str) (port : ℕ)
    (is_ssl : Bool) (r : Resource) (s : ℕ)
    → net.socket ≡ some s
    → (http_connect net init old name port is_ssl).code ≡ ht_ok
    → ((http_connect net init old name port is_ssl).connection
        ≡ some (record {
          socketd = some s;
          host = some name;
          port = port;
          address = address net name;
          status = ht_ok;
          ssl = is_ssl;
        }))
      × (total (acquires r) (session net init old name port is_ssl)
          ≡ total (frees r) (session net init old name port is_ssl))
      × (opened (session net init old name port is_ssl) ≡ s ∷ [])
      × (closed (session net init old name port is_ssl) ≡ some s ∷ [])
unfolding http_connect
http_disconnect-http_connect net init old name port is_ssl r s hs h =
    (ground arith, ground arith, ground arith, ground arith)

-- OpenSSL is initialised at most once: a call initialises it only for an SSL connection while the
-- flag is not set, and sets the flag.
pub http_connect-init_once :
    (net : Network) (init : Bool) (old : Option HttpConnection) (name : Str) (port : ℕ)
    (is_ssl : Bool)
    → (total initialises (http_connect net init old name port is_ssl).events
        ≡ (if net.conn_block && (is_ssl && not init) then 1 else 0))
      × ((http_connect net init old name port is_ssl).is_init_ssl
          ≡ (init || (net.conn_block && is_ssl)))
unfolding http_connect
http_connect-init_once net init old name port is_ssl = ground arith
