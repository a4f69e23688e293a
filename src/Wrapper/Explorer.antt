-- ===== src/Wrapper/Explorer.antt =====
-- `wp_explorer` and `wp_utoc` of netdisk4tc/wrapper.c, with every call of Lua. They run inside a call
-- of a script: the stack holds their arguments, and an error of Lua leaves the function at once.
pub mod Address
pub mod Messages
pub mod SignIn
pub mod Session
use netdisk4tc.Base.{
  ℕ, zero, suc, ◌-◌, ◌/◌, Bool, true, false, Option, none, some, List, [], ◌∷◌, ◌++◌, if◌then◌else◌,
  leb, Str, codes, Run, ok, fault, ◌>>=◌,
}
use netdisk4tc.Utility.Convert.{Pages, convert}
use netdisk4tc.Lua.{
  LuaValue, nil, text_value, Heap, LuaState, is_table, is_string, one_argument, lua_pop, value_at,
  lua_getfield, lua_tostring, is_number, lua_number,
}

-- A whole number; `negsuc n` is -(n + 1).
pub data ℤ : Type 0 where
  pos negsuc : ℕ → ℤ

abbrev minus : ℕ → ℤ
minus zero = pos 0
minus (suc n) = negsuc n

-- `(a - b) / 2`, which C rounds towards 0.
abbrev pub half_difference : ℕ → ℕ → ℤ
half_difference a b = if leb b a then pos ((a - b) / 2) else minus ((b - a) / 2)

-- The calls of Windows and of the browser that the function makes.
pub data WindowCall : Type 0 where
  enable_parent : Bool → WindowCall
  create_window : Str → ℤ → ℤ → ℕ → ℕ → WindowCall
  display_page : Option Str → WindowCall
  foreground_parent : WindowCall

-- A message of the loop: the text of a token, or any other.
pub data Message : Type 0 where
  auth_token : Option Str → Message
  other_message : Message

-- What the function has called, and what it returns; `none` is an error of Lua.
abbrev pub Explored : Type 0
Explored = List WindowCall × Option LuaValue

abbrev pub default_title : Str
default_title = 39564 ∷ 35777 ∷ []

-- A step that may raise an error, behind calls that are made.
abbrev pub raising {ℓ} : {A : Type ℓ} → List WindowCall → Run A → (A → Explored) → Explored
raising calls fault next = (calls, none)
raising calls (ok a) next = next a

-- The text of the last message with a token: none at first.
unfoldable pub message_loop : (Str → Str) → Option Str → List Message → Option Str
message_loop wtoc tmp [] = tmp
message_loop wtoc tmp (auth_token none ∷ ms) = message_loop wtoc none ms
message_loop wtoc tmp (auth_token (some s) ∷ ms) = message_loop wtoc (some (wtoc s)) ms
message_loop wtoc tmp (other_message ∷ ms) = message_loop wtoc tmp ms

module _ {ℓ} {H : Type ℓ} (api : Heap H) (ctow wtoc : Str → Str) where
  -- The value on top is popped only where it is a number.
  abbrev pub take_number : ℕ → LuaState H → Run (ℕ × LuaState H)
  take_number default l = do
    v ← value_at 0 l
    if is_number api v then (do l' ← lua_pop 1 l; ok (lua_number api v, l')) else ok (default, l)

  abbrev pub number_field : Str → ℕ → LuaState H → Run (ℕ × LuaState H)
  number_field name default l = do l' ← lua_getfield api 0 name l; take_number default l'

  -- The fields `width` and `height`.
  unfoldable pub window_size : LuaState H → Run (ℕ × ℕ × LuaState H)
  window_size l = do
    (width, l1) ← number_field (codes "width") 500 l
    (height, l2) ← number_field (codes "height") 600 l1
    ok (width, height, l2)

  abbrev pub text_on_top : LuaState H → LuaValue → Run (Option Str × LuaState H)
  text_on_top l v =
      if is_string v
      then (do
        (tmp, l') ← lua_tostring api 0 l
        ok (elim tmp [ none ↦ none | some s ↦ some (ctow s) ], l'))
      else ok (none, l)

  -- The field `title`, which is popped where it is a string.
  unfoldable pub window_title : LuaState H → Run (Option Str × LuaState H)
  window_title l = do
    l1 ← lua_getfield api 0 (codes "title") l
    v ← value_at 0 l1
    (title, l2) ← text_on_top l1 v
    l3 ← (if is_string v then lua_pop 1 l2 else ok l2)
    ok (title, l3)

  -- The field `url`.
  unfoldable pub page_url : LuaState H → Run (Option Str)
  page_url l = do
    l1 ← lua_getfield api 0 (codes "url") l
    v ← value_at 0 l1
    (url, _) ← text_on_top l1 v
    ok url

  abbrev pub title_or_default : Option Str → Str
  title_or_default none = default_title
  title_or_default (some title) = title

  -- The window's page, the loop over its messages, and the result.
  unfoldable pub show_page : List WindowCall → List Message → Option Str → Explored
  unfolding message_loop
  show_page calls messages url = (
    calls ++ (display_page url ∷ enable_parent true ∷ foreground_parent ∷ []),
    some (text_value (message_loop wtoc none messages)),
  )

  -- `wp_explorer`. The parent's width and height are those of its rectangle, and `messages` are those
  -- that `GetMessage` gives until it gives no more.
  unfoldable pub wp_explorer : ℕ → ℕ → List Message → LuaState H → Explored
  unfolding window_size window_title page_url show_page
  wp_explorer parent_width parent_height messages l =
      if one_argument is_table l.stack
      then raising [] (window_size l) (λ (size : ℕ × ℕ × LuaState H).
        raising (enable_parent false ∷ []) (window_title size.2)
          (λ (title : Option Str × LuaState H).
            let calls =
              enable_parent false
              ∷ create_window (title_or_default title.0) (half_difference parent_width size.0)
                  (half_difference parent_height size.1) size.0 size.1
              ∷ [] in
            raising calls (page_url title.1) (show_page calls messages)))
      else ([], some nil)

  -- `wp_utoc`, from UTF-8 to code page 936.
  unfoldable pub wp_utoc : Pages → LuaState H → Run LuaValue
  unfolding convert
  wp_utoc pages l =
      if one_argument is_string l.stack
      then (do
        (tmp, l1) ← lua_tostring api 0 l
        _ ← lua_pop 1 l1
        ok (text_value (convert pages tmp 65001 936)))
      else ok nil
