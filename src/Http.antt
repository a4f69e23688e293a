-- ===== src/Http.antt =====
-- The HTTP client of netdisk4tc/http.c and http.h: the data types. The operations are in Request,
-- Response, Transfer and Connect. Allocations that the code does not check are taken to succeed.
pub mod Request
pub mod Text
pub mod Response
pub mod StatusLine
pub mod RoundTrip
pub mod Malformed
pub mod Connect
pub mod Lifecycle
pub mod Transfer
pub mod Exchange
pub mod Release
use netdisk4tc.Base.{ℕ, Option, Str}
use netdisk4tc.Dictionary.{Dictionary}

-- The return codes.
abbrev pub ht_ok : ℕ
ht_ok = 0

abbrev pub ht_fatal_error : ℕ
ht_fatal_error = 0xFFFF

abbrev pub ht_service_unavailable : ℕ
ht_service_unavailable = 0xFFFD

abbrev pub ht_illegal_operation : ℕ
ht_illegal_operation = 0xFFF9

abbrev pub ht_io_error : ℕ
ht_io_error = 0xFFF7

abbrev pub ht_invalid_argument : ℕ
ht_invalid_argument = 0xFFFE

abbrev pub ht_resource_unavailable : ℕ
ht_resource_unavailable = 0xFFFC

abbrev pub ht_memory_error : ℕ
ht_memory_error = 0xFFFB

abbrev pub ht_network_error : ℕ
ht_network_error = 0xFFFA

abbrev pub ht_host_unavailable : ℕ
ht_host_unavailable = 0xFFF8

-- `HTTP_METHOD_GET` and `HTTP_METHOD_POST`.
abbrev pub http_method_get : ℕ
http_method_get = 0

abbrev pub http_method_post : ℕ
http_method_post = 1

-- Headers have text values and no destroyers.
abbrev pub Headers : Type 0
Headers = Dictionary Str (Unit {0})

pub record HttpRequest : Type 0 where
  pub method : ℕ
  pub path : Option Str
  pub version : Str
  pub headers : Headers
  pub body : Option Str

pub record HttpResponse : Type 0 where
  pub version : Str
  pub status_code : ℕ
  pub status_msg : Str
  pub headers : Headers
  pub body : Str
