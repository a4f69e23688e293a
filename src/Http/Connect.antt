-- ===== src/Http/Connect.antt =====
-- `http_connect` and `http_disconnect`. The operating system's and OpenSSL's answers are the
-- fields of `Network`; what the code acquires and gives back is a list of events.
use netdisk4tc.Base.{ℕ, Bool, true, Option, none, some, List, [], ◌∷◌, ◌++◌, if◌then◌else◌, Str}
use netdisk4tc.Http.{
  ht_ok, ht_invalid_argument, ht_resource_unavailable, ht_memory_error, ht_network_error,
  ht_host_unavailable,
}

-- The answers to the calls of one `http_connect`. `none` is `INADDR_NONE`, `NULL` and
-- `INVALID_SOCKET`.
pub record Network : Type 0 where
  pub conn_block : Bool
  pub inet_addr : Str → Option ℕ
  pub gethostbyname : Str → Option ℕ
  pub host_block : Bool
  pub socket : Option ℕ
  pub connect : Bool

pub data Event : Type 0 where
  malloc_conn free_conn : Event
  ssl_library_init : Event
  new_ssl free_ssl : Event
  dup_host free_host : Event
  open_socket : ℕ → Event
  close_socket : Option ℕ → Event
  ssl_connect ssl_shutdown : Event

pub record HttpConnection : Type 0 where
  pub socketd : Option ℕ
  pub host : Option Str
  pub port : ℕ
  pub address : ℕ
  pub status : ℕ
  pub ssl : Bool

-- `free(p)`, which does nothing at `NULL`.
abbrev host_freed : Option Str → List Event
host_freed none = []
host_freed (some _) = free_host ∷ []

-- The result, `*connection` and the events.
unfoldable pub http_disconnect : Option HttpConnection → ℕ × Option HttpConnection × List Event
http_disconnect none = (ht_invalid_argument, none, [])
http_disconnect (some c) = (
  ht_ok,
  none,
  (if c.ssl then ssl_shutdown ∷ free_ssl ∷ [] else [])
      ++ (close_socket c.socketd ∷ (host_freed c.host ++ (free_conn ∷ []))),
)

-- What `http_connect` leaves: the result, `*connection`, `is_init_ssl` and the events.
pub record Connected : Type 0 where
  pub code : ℕ
  pub connection : Option HttpConnection
  pub is_init_ssl : Bool
  pub events : List Event

-- A return behind `http_disconnect(&conn)`.
abbrev give_up : ℕ → Option HttpConnection → Bool → List Event → HttpConnection → Connected
give_up code old init es c = record {
  code = code;
  connection = old;
  is_init_ssl = init;
  events = es ++ (http_disconnect (some c)).2;
}

-- From the call of `connect` on.
abbrev finish_connect :
    Network → Option HttpConnection → Bool → List Event → HttpConnection → Connected
finish_connect net old init es c =
    if net.connect
    then (record {
      code = ht_ok;
      connection = some (record c { status = ht_ok });
      is_init_ssl = init;
      events = if c.ssl then es ++ (ssl_connect ∷ []) else es;
    })
    else give_up ht_network_error old init es c

-- From the call of `socket` on.
abbrev open_connection :
    Network → Option HttpConnection → Bool → List Event → HttpConnection → Option ℕ → Connected
open_connection net old init es c none =
    give_up ht_resource_unavailable old init es (record c { socketd = none })
open_connection net old init es c (some s) =
    finish_connect net old init (es ++ (open_socket s ∷ [])) (record c { socketd = some s })

-- From the copy of the host's name on.
abbrev named_connection :
    Network → Option HttpConnection → Bool → List Event → HttpConnection → Str → Connected
named_connection net old init es c host =
    if net.host_block
    then open_connection net old init (es ++ (dup_host ∷ [])) (record c { host = some host })
        net.socket
    else give_up ht_memory_error old init es c

-- `inet_addr`, and `gethostbyname` where the text is no address.
abbrev resolve : Network → Str → Option ℕ
resolve net host = elim (net.inet_addr host) [ some ip ↦ some ip | none ↦ net.gethostbyname host ]

abbrev resolved :
    Network
    → Option HttpConnection
    → Bool
    → List Event
    → HttpConnection
    → Str
    → Option ℕ
    → Connected
resolved net old init es c host none = record {
  code = ht_host_unavailable;
  connection = old;
  is_init_ssl = init;
  events = es;
}
resolved net old init es c host (some ip) =
    named_connection net old init es (record c { address = ip }) host

-- `memset(conn, 0, …)` and the fields set before the address.
abbrev blank_connection : ℕ → Bool → HttpConnection
blank_connection port is_ssl = record {
  socketd = some 0;
  host = none;
  port = port;
  address = 0;
  status = 0;
  ssl = is_ssl;
}

-- `http_connect(connection, host, port, is_ssl)`; `old` is `*connection` before, `init` the static
-- `is_init_ssl`.
unfoldable pub http_connect : Network → Bool → Option HttpConnection → Str → ℕ → Bool → Connected
unfolding http_disconnect
http_connect net init old host port is_ssl =
    if net.conn_block
    then resolved net old (if is_ssl then true else init)
        (malloc_conn
          ∷ (if is_ssl
              then (if init then new_ssl ∷ [] else ssl_library_init ∷ new_ssl ∷ [])
              else []))
        (blank_connection port is_ssl) host (resolve net host)
    else (record { code = ht_memory_error; connection = old; is_init_ssl = init; events = [] })
