-- ===== src/Tests/Explorer.antt =====
-- The sign-in window of a script.
use netdisk4tc.Base.{
  ℕ, ◌++◌, List, Option, Bool, ◌==◌, if◌then◌else◌, arith, ◌≡◌, refl, true, false, none, some, [],
  ◌∷◌, Str, codes, eq_str,
}
use netdisk4tc.Lua.{nil, number, string, table, Outcome, raised, Heap}
use netdisk4tc.Wrapper.Explorer.{
  Message, WindowCall, pos, negsuc, enable_parent, create_window, display_page, foreground_parent,
  default_title, wp_explorer,
}
use netdisk4tc.Wrapper.Explorer.SignIn.{wp_explorer-no_title}
use netdisk4tc.Wrapper.Explorer.Address.{blank_page, s_ok, translate_url, wp_explorer-translate_url}
use netdisk4tc.Crt.{wcsnicmp_equal}
use netdisk4tc.Wrapper.Explorer.Messages.{
  WindowMessage, posted_size, posted_other, Got, got, quit, Windows, IsWindows, dispatched,
}
use netdisk4tc.Tests.LuaHeap.{Fields, Store, lua_heap}

abbrev same : Str → Str
same s = s

abbrev no_functions : ℕ → Store → Outcome × Store
no_functions f h = (raised nil, h)

abbrev no_files : Str → Store → Outcome × Store
no_files name h = (raised nil, h)

abbrev heap : Heap Store
heap = lua_heap no_functions no_files

abbrev size : Fields
size = (string (codes "width"), number 700) ∷ (string (codes "height"), number 400) ∷ []

abbrev page : Fields
page =
    (string (codes "title"), string (codes "Sign in"))
    ∷ (string (codes "url"), string (codes "http://net/"))
    ∷ size

abbrev store : Fields → Store
store fields = record { globals = []; tables = (0, fields) ∷ []; fresh = 1 }

-- A queue that is a list, and whether `PostQuitMessage` has been called.
abbrev Queue : Type 0
Queue = List WindowMessage × Bool

abbrev next_message : Queue → Got Queue
next_message (m ∷ ms, quits) = got m (ms, quits)
next_message ([], _) = quit

abbrev list_queue : Windows Queue
list_queue = record {
  get_message = next_message;
  post_message = λ m q. (q.0 ++ (m ∷ []), q.1);
  post_quit_message = λ q. (q.0, true);
}

next-first :
    (q : Queue) {m : WindowMessage} {ms : List WindowMessage}
    → q.0 ≡ m ∷ ms
    → next_message q ≡ got m (ms, q.1)
next-first ([], _) e = cc
next-first (x ∷ xs, quits) e = cc

next-quit : (q : Queue) → q.0 ≡ [] → next_message q ≡ quit
next-quit ([], _) e = refl
next-quit (x ∷ xs, quits) e = cc

abbrev list_queue_laws : IsWindows list_queue
list_queue_laws = record {
  contents = λ q. q.0;
  quits = λ q. q.1;
  get_first = λ q m ms e. ((ms, q.1), next-first q e, refl);
  get_quit = λ q e _. next-quit q e;
  contents_post = λ m q. refl;
  contents_quit = λ q. refl;
  quits_quit = λ q. refl;
}

-- The token lies at address 64.
abbrev token_at : ℕ → Option Str
token_at p = if p == 64 then some (codes "t0k") else none

abbrev opened : List WindowCall
opened =
    enable_parent false
    ∷ create_window (codes "Sign in") (pos 50) (negsuc 49) 700 400
    ∷ display_page (some (codes "http://net/"))
    ∷ enable_parent true
    ∷ foreground_parent
    ∷ []

wp_explorer-translate_url_example :
    (q' : Queue) × (translate_url list_queue true 56
        (codes "APP:t0k")
        (posted_size 700 400 ∷ posted_other ∷ [], false)
      ≡ (s_ok, some blank_page, q'))
    × (ms : List Message) × (dispatched list_queue token_at 8 q' ≡ some ms)
    × (wp_explorer heap same same 800 300 ms (record { stack = table 0 ∷ []; heap = store page })
        ≡ (opened, some (string (codes "t0k"))))
unfolding eq_str wcsnicmp_equal
wp_explorer-translate_url_example =
    wp_explorer-translate_url heap same same (store page) 0 list_queue_laws token_at 800 300
      (codes "Sign in") (codes "http://net/") 56 8 (codes "APP:") (codes "t0k")
      (posted_size 700 400 ∷ posted_other ∷ []) (posted_size 700 400 ∷ posted_other ∷ [], false)
      (refl, refl, refl, refl) refl refl refl tt refl (omega arith)

wp_explorer-no_title_example :
    wp_explorer heap same same 800 300 [] (record { stack = table 0 ∷ []; heap = store size })
    ≡ (enable_parent false ∷ create_window default_title (pos 50) (negsuc 49) 700 400 ∷ [], none)
unfolding eq_str
wp_explorer-no_title_example =
    wp_explorer-no_title heap same same (store size) 0 800 300 [] refl refl refl
