-- ===== src/Lua/Walk.antt =====
-- The pairs that the calls of `lua_next` give.
use netdisk4tc.Base.{ℕ, ◌≡◌, none, some, List, [], ◌∷◌}
use netdisk4tc.Lua.{LuaValue, Heap}

-- Behind the key `k`, the table `t` has these pairs, in this order.
abbrev pub Lists {ℓ} :
    {H : Type ℓ} → Heap H → H → ℕ → LuaValue → List (LuaValue × LuaValue) → Type 0
Lists api h t k [] = api.next h t k ≡ some none
Lists api h t k ((k', v) ∷ ps) = (api.next h t k ≡ some (some (k', v))) × Lists api h t k' ps
