-- ===== src/Tests/Wrapper.antt =====
-- A script's call, with the response of Tests.Http.
use netdisk4tc.Base.{
  ℕ, ◌>>=◌, List, Option, ◌≡◌, refl, true, false, some, inl, [], ◌∷◌, Str, codes, eq_str, ok, arith,
}
use netdisk4tc.Http.Exchange.{chunks}
use netdisk4tc.Tests.Http.{ctow, parts, network}
use netdisk4tc.Lua.{LuaValue, nil, string, table, text_value, Heap, Outcome, raised}
use netdisk4tc.Tests.LuaHeap.{Store, lua_heap}
use netdisk4tc.Wrapper.Arguments.{lua_http, pairs_of, fields_of, lua_http-wp_http}
use netdisk4tc.Wrapper.{no_call, set_url, wp_http}
use netdisk4tc.Wrapper.Url.{set_url-split}

-- A port and a path.
abbrev tail : Str
tail = codes ":81/x"

set_url-split_example :
    set_url no_call (codes "http://net:81/x")
    ≡ ok (record no_call { host = some (codes "net"); path = some tail; port = 80; is_ssl = false })
set_url-split_example =
    set_url-split false (codes "net") tail
      ((omega arith, omega arith, (omega arith, omega arith, (omega arith, omega arith, tt))))
      (inl refl)

-- A table with a URL and a method, in a heap without functions.
abbrev no_functions : ℕ → Store → Outcome × Store
no_functions f h = (raised nil, h)

abbrev no_files : Str → Store → Outcome × Store
no_files name h = (raised nil, h)

abbrev heap : Heap Store
heap = lua_heap no_functions no_files

abbrev get_page : List (Str × LuaValue)
get_page =
    (codes "url", string (codes "http://net/x")) ∷ (codes "method", string (codes "get")) ∷ []

abbrev store : Store
store = record { globals = []; tables = (0, pairs_of heap get_page) ∷ []; fresh = 1 }

lua_http-wp_http_example :
    lua_http heap ctow
      (network true)
      false
      (chunks parts)
      3
      (record { stack = table 0 ∷ []; heap = store })
    ≡ (wp_http ctow (network true) false (chunks parts) (some (fields_of heap get_page))
        >>= λ (s : Option Str). ok (text_value s))
unfolding eq_str
lua_http-wp_http_example =
    lua_http-wp_http heap ctow (network true) false (chunks parts) 3 store 0 get_page
      (refl, (refl, refl)) (omega arith)
