-- ===== src/Wrapper/Explorer/SignIn.antt =====
-- The window in which a user signs in: what it shows, what it gives back, and the fields without
-- which it fails.
use netdisk4tc.Base.{
  ℕ, zero, suc, ◌≡◌, refl, ◌∙◌, true, false, Option, none, some, List, [], ◌∷◌, ◌++◌, Str, codes,
  ok,
}
use netdisk4tc.Lua.{
  string, text_value, LuaValue, nil, table, Heap, LuaState, lua_text, is_number, lua_number,
}
use netdisk4tc.Lua.Text.{text_at-top, lua_text-is_string}
use netdisk4tc.Wrapper.Explorer.{
  half_difference, WindowCall, enable_parent, create_window, display_page, foreground_parent,
  Message, auth_token, other_message, default_title, message_loop, window_size, window_title,
  page_url, show_page, wp_explorer,
}

abbrev pub others : ℕ → List Message
others zero = []
others (suc n) = other_message ∷ others n

pub message_loop-others :
    (wtoc : Str → Str) (tmp : Option Str) (n : ℕ) → message_loop wtoc tmp (others n) ≡ tmp
unfolding message_loop
message_loop-others wtoc tmp zero = refl
message_loop-others wtoc tmp (suc n) = message_loop-others wtoc tmp n

pub message_loop_quiet :
    (wtoc : Str → Str) (n : ℕ) → message_loop wtoc none (others n ++ (other_message ∷ [])) ≡ none
unfolding message_loop
message_loop_quiet wtoc zero = refl
message_loop_quiet wtoc (suc n) = message_loop_quiet wtoc n

pub message_loop-last :
    (wtoc : Str → Str) (tmp : Option Str) (ms : List Message) (token : Str) (n : ℕ)
    → message_loop wtoc tmp (ms ++ (auth_token (some token) ∷ others n)) ≡ some (wtoc token)
unfolding message_loop
message_loop-last wtoc tmp [] token n = message_loop-others wtoc (some (wtoc token)) n
message_loop-last wtoc tmp (auth_token none ∷ ms) token n = message_loop-last wtoc none ms token n
message_loop-last wtoc tmp (auth_token (some s) ∷ ms) token n =
    message_loop-last wtoc (some (wtoc s)) ms token n
message_loop-last wtoc tmp (other_message ∷ ms) token n = message_loop-last wtoc tmp ms token n

module _ {ℓ} {H : Type ℓ} (api : Heap H) (ctow wtoc : Str → Str) (heap : H) (t : ℕ) where
  abbrev pub field : Str → LuaValue
  field name = api.field heap t name

  -- The window of the size and title that the script asks for, in the middle of the parent.
  abbrev pub centred_window : ℕ → ℕ → Str → WindowCall
  centred_window parent_width parent_height title =
      create_window title (half_difference parent_width (lua_number api (field (codes "width"))))
        (half_difference parent_height (lua_number api (field (codes "height"))))
        (lua_number api (field (codes "width"))) (lua_number api (field (codes "height")))

  abbrev argument : LuaState H
  argument = record { stack = table t ∷ []; heap = heap }

  window_size_lem :
      is_number api (field (codes "width")) ≡ true
      → is_number api (field (codes "height")) ≡ true
      → window_size api ctow wtoc argument
        ≡ ok (
          lua_number api (field (codes "width")),
          lua_number api (field (codes "height")),
          argument,
        )
  unfolding window_size
  window_size_lem w h = rw (w, h)

  window_title_lem :
      (title : Str)
      → lua_text api (field (codes "title")) ≡ some title
      → window_title api ctow wtoc argument ≡ ok (some (ctow title), argument)
  unfolding window_title
  window_title_lem title is = rw (
    lua_text-is_string api _ title is,
    text_at-top api (field (codes "title")) (table t ∷ []) heap,
    is,
  )

  page_url_lem :
      (url : Str)
      → lua_text api (field (codes "url")) ≡ some url
      → page_url api ctow wtoc argument ≡ ok (some (ctow url))
  unfolding page_url
  page_url_lem url is = rw (
    lua_text-is_string api _ url is,
    text_at-top api (field (codes "url")) (table t ∷ []) heap,
    is,
  )

  -- What the function calls where all four fields are there.
  abbrev pub shown : ℕ → ℕ → Str → Str → List WindowCall
  shown parent_width parent_height title url =
      enable_parent false
      ∷ centred_window parent_width parent_height (ctow title)
      ∷ display_page (some (ctow url))
      ∷ enable_parent true
      ∷ foreground_parent
      ∷ []

  -- With a width and a height that are numbers and a title and a URL that are texts, the window opens
  -- in the middle of the parent, which is disabled meanwhile, shows the page, and the script gets
  -- what the loop over the messages leaves.
  pub wp_explorer_lem :
      (parent_width parent_height : ℕ) (ms : List Message) (title url : Str)
      → is_number api (field (codes "width")) ≡ true
      → is_number api (field (codes "height")) ≡ true
      → lua_text api (field (codes "title")) ≡ some title
      → lua_text api (field (codes "url")) ≡ some url
      → wp_explorer api ctow wtoc parent_width parent_height ms
          (record { stack = table t ∷ []; heap = heap })
        ≡ (
          shown parent_width parent_height title url,
          some (text_value (message_loop wtoc none ms)),
        )
  unfolding wp_explorer show_page
  wp_explorer_lem parent_width parent_height ms title url w h is_title is_url =
      rw (window_size_lem w h, window_title_lem title is_title, page_url_lem url is_url)

  -- Where a message brings a token, the script gets the last one.
  wp_explorer-token :
      (parent_width parent_height n : ℕ) (ms : List Message) (title url token : Str)
      → is_number api (field (codes "width")) ≡ true
      → is_number api (field (codes "height")) ≡ true
      → lua_text api (field (codes "title")) ≡ some title
      → lua_text api (field (codes "url")) ≡ some url
      → wp_explorer api ctow wtoc parent_width parent_height
          (ms ++ (auth_token (some token) ∷ others n))
          (record { stack = table t ∷ []; heap = heap })
        ≡ (shown parent_width parent_height title url, some (string (wtoc token)))
  wp_explorer-token parent_width parent_height n ms title url token w h is_title is_url =
      wp_explorer_lem parent_width parent_height (ms ++ (auth_token (some token) ∷ others n)) title
        url w h is_title is_url
      ∙ rw (message_loop-last wtoc none ms token n)

  -- A table without a width is an error of Lua, although the code has a width of its own for it.
  pub wp_explorer-no_width :
      (parent_width parent_height : ℕ) (ms : List Message)
      → field (codes "width") ≡ nil
      → wp_explorer api ctow wtoc parent_width parent_height ms
          (record { stack = table t ∷ []; heap = heap })
        ≡ ([], none)
  unfolding wp_explorer window_size
  wp_explorer-no_width parent_width parent_height ms w = rw (w)

  -- A table with a width and a height and without a title opens a window with the code's own title,
  -- and then fails with an error of Lua, which leaves the parent disabled.
  pub wp_explorer-no_title :
      (parent_width parent_height : ℕ) (ms : List Message)
      → is_number api (field (codes "width")) ≡ true
      → is_number api (field (codes "height")) ≡ true
      → field (codes "title") ≡ nil
      → wp_explorer api ctow wtoc parent_width parent_height ms
          (record { stack = table t ∷ []; heap = heap })
        ≡ (enable_parent false ∷ centred_window parent_width parent_height default_title ∷ [], none)
  unfolding wp_explorer window_title page_url
  wp_explorer-no_title parent_width parent_height ms w h is_nil = rw (window_size_lem w h, is_nil)
