-- ===== src/Lua/Text.antt =====
-- What `lua_tostring` gives and what it leaves.
use netdisk4tc.Base.{◌≡◌, refl, true, some, List, ◌∷◌, Str}
use netdisk4tc.Lua.{
  LuaValue, nil, boolean, number, string, table, function, Heap, is_string, text_at, lua_text,
}

module _ {ℓ} {H : Type ℓ} (api : Heap H) where
  -- A value after `lua_tostring` at its place.
  abbrev pub shown : LuaValue → LuaValue
  shown (number n) = string (api.number_text n)
  shown v = v

  pub text_at-top :
      (v : LuaValue) (st : List LuaValue) (h : H)
      → text_at api 0 (record { stack = v ∷ st; heap = h }) v
        ≡ (lua_text api v, record { stack = shown v ∷ st; heap = h })
  text_at-top nil st h = refl
  text_at-top (boolean _) st h = refl
  text_at-top (number _) st h = refl
  text_at-top (string _) st h = refl
  text_at-top (table _) st h = refl
  text_at-top (function _) st h = refl

  pub text_at-below :
      (w v : LuaValue) (st : List LuaValue) (h : H)
      → text_at api 1 (record { stack = w ∷ v ∷ st; heap = h }) v
        ≡ (lua_text api v, record { stack = w ∷ shown v ∷ st; heap = h })
  text_at-below w nil st h = refl
  text_at-below w (boolean _) st h = refl
  text_at-below w (number _) st h = refl
  text_at-below w (string _) st h = refl
  text_at-below w (table _) st h = refl
  text_at-below w (function _) st h = refl

  pub lua_text-is_string : (v : LuaValue) (s : Str) → lua_text api v ≡ some s → is_string v ≡ true
  lua_text-is_string (number _) s h = refl
  lua_text-is_string (string _) s h = refl
  lua_text-is_string nil s h = cc
  lua_text-is_string (boolean _) s h = cc
  lua_text-is_string (table _) s h = cc
  lua_text-is_string (function _) s h = cc
