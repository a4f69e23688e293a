-- ===== src/Wrapper.antt =====
-- The functions of netdisk4tc/wrapper.c that the scripts call: `wp_http` and `wp_savt`.
pub mod Release
pub mod Url
pub mod Token
pub mod Explorer
pub mod Arguments
pub mod Named
use netdisk4tc.Base.{
  ℕ, zero, suc, ◌+◌, Bool, true, false, ◌||◌, Option, none, some, List, [], ◌∷◌, ◌++◌,
  if◌then◌else◌, leb, ◌==◌, length, get_elem?, drop, Str, codes, eq_str, Run, ok, fault, ◌>>=◌,
  ◌>>◌, expect, deref,
}
use netdisk4tc.Utility.{wcslcpy}
use netdisk4tc.Dictionary.{DictEntry, Status, dict_ok, dict_get_element_s}
use netdisk4tc.Http.{ht_ok, http_method_get, http_method_post}
use netdisk4tc.Http.Request.{http_request_create}
use netdisk4tc.Http.Connect.{Network, http_connect}
use netdisk4tc.Http.Transfer.{Recv, Exchanged, http_request}
use netdisk4tc.Disk.{Disk, DiskDestroyer, Disks}
use netdisk4tc.Disk.Store.{Profile, ndisks_save}

-- The variables of `wp_http` that the script's table sets.
pub record HttpCall : Type 0 where
  pub host : Option Str
  pub path : Option Str
  pub body : Option Str
  pub method : ℕ
  pub port : ℕ
  pub is_ssl : Bool

abbrev pub no_call : HttpCall
no_call = record {
  host = none;
  path = none;
  body = none;
  method = http_method_get;
  port = 0;
  is_ssl = false;
}

-- The steps of the loop that looks for the end of the host's name.
unfoldable pub host_end : Str → ℕ
host_end [] = 0
host_end (c ∷ cs) = let rest = host_end cs in if c == b':' || c == b'/' then 0 else suc rest

-- The host and the path behind the scheme: `start` is where the host begins. A text that is shorter
-- is read past its end.
abbrev pub split_url : HttpCall → Str → ℕ → Run HttpCall
split_url call url start = do
  expect (leb start (length url))
  let rest = drop start url
  host ← wcslcpy (host_end rest + 1) rest (host_end rest + 1)
  ok (record call { host = some host; path = some (drop (host_end rest) rest) })

-- The field `url`.
unfoldable pub set_url : HttpCall → Str → Run HttpCall
unfolding host_end wcslcpy
set_url call url = do
  expect (leb 4 (length url))
  elim (get_elem? url 4) [
    | none ↦ split_url (record call { port = 80 }) url 7
    | some c ↦
        if c == b's'
        then split_url (record call { is_ssl = true; port = 443 }) url 8
        else split_url (record call { port = 80 }) url 7
  ]

-- One field of the table: the key and the value as `lua_tostring` gives them.
unfoldable pub call_field : HttpCall → Option Str × Option Str → Run HttpCall
unfolding set_url
call_field call (key, value) = do
  name ← deref key
  if eq_str name (codes "url")
      then (do url ← deref value; set_url call url)
      else if eq_str name (codes "method")
      then (do
        s ← deref value
        ok (record call {
          method = if eq_str s (codes "post") then http_method_post else http_method_get;
        }))
      else if eq_str name (codes "body")
      then ok (record call { body = value })
      else ok call

unfoldable pub call_fields : HttpCall → List (Option Str × Option Str) → Run HttpCall
unfolding call_field
call_fields call [] = ok call
call_fields call (f ∷ fs) = do call' ← call_field call f; call_fields call' fs

-- What is pushed for the result of `http_request`: `none` is `nil`. A response that is `NULL` is used.
abbrev pub pushed : Exchanged → Run (Option Str)
pushed e =
    if e.code == ht_ok
    then (do response ← deref e.response; r ← deref response; ok (some r.body))
    else ok none

-- What `wp_http` does once the table is read. The blocks of the request are taken to be there; `init`
-- is the static of `http_connect`.
unfoldable pub run_call : (Str → Str) → Network → Bool → List Recv → HttpCall → Run (Option Str)
unfolding http_request_create http_connect http_request
run_call ctow net init rs call = do
  host ← deref call.host
  let connected = http_connect net init none host call.port call.is_ssl
  if connected.code == ht_ok
      then (do
        e ←
            http_request ctow connected.connection
              (http_request_create call.path call.method call.body true) true rs
        pushed e)
      else ok none

-- `wp_http` on a table, in the order of `lua_next`. `none` as the argument is anything but one table.
unfoldable pub wp_http :
    (Str → Str)
    → Network
    → Bool
    → List Recv
    → Option (List (Option Str × Option Str))
    → Run (Option Str)
unfolding call_fields run_call
wp_http ctow net init rs none = ok none
wp_http ctow net init rs (some fields) = do
  call ← call_fields no_call fields
  run_call ctow net init rs call

-- The disk with a key gets a token; a disk is shared with the dictionary that holds it.
unfoldable pub store_token :
    Str → Str → List (DictEntry Disk DiskDestroyer) → List (DictEntry Disk DiskDestroyer)
store_token key token [] = []
store_token key token (e ∷ es) =
    if eq_str key e.key
    then record e {
      value = elim e.value [ none ↦ none | some d ↦ some (record d { token = some token }) ];
    }
      ∷ es
    else e ∷ store_token key token es

module _ {ℓ} {S : Type ℓ} (profile : Profile S) where
  abbrev pub token_saved :
      Str → Disks → Str → Str → S → Status × Option Disk → Run (Bool × Disks × S)
  token_saved my_dir disks key token s (dict_ok, disk) = do
    d ← deref disk
    let disks' = record disks { first = store_token key token disks.first }
    s' ← ndisks_save profile my_dir (some disks') s
    ok (true, disks', s')
  token_saved my_dir disks key token s (_, disk) = ok (false, disks, s)

  -- `wp_savt` on its arguments; `none` is anything but two strings. The result, the disks and the
  -- store.
  unfoldable pub wp_savt :
      (Str → Str) → Str → Disks → Option (Str × Str) → S → Run (Bool × Disks × S)
  unfolding dict_get_element_s store_token ndisks_save
  wp_savt ctow my_dir disks none s = ok (false, disks, s)
  wp_savt ctow my_dir disks (some (key, token)) s =
      token_saved my_dir disks (ctow key) (ctow token) s (dict_get_element_s disks (ctow key) none)
