-- ===== src/Lua.antt =====
-- The interface of Lua 5.1 to C, as far as netdisk4tc/ calls it: a stack of values, and a heap with
-- the globals and the tables. What stands in the heap and what Lua's functions do is the parameter
-- `Heap`. An index -1, -2, … is the place 0, 1, … from the top.
pub mod Walk
pub mod Text
use netdisk4tc.Base.{
  ℕ, zero, suc, ◌+◌, Bool, true, false, ◌||◌, Option, none, some, List, [], ◌∷◌, ◌++◌,
  if◌then◌else◌, leb, length, get_elem?, set, drop, take, Str, codes, Run, ok, fault, ◌>>=◌, ◌>>◌,
  expect, deref,
}

-- Tables and functions are references into the heap.
pub data LuaValue : Type 0 where
  nil : LuaValue
  boolean : Bool → LuaValue
  number : ℕ → LuaValue
  string : Str → LuaValue
  table : ℕ → LuaValue
  function : ℕ → LuaValue

abbrev pub text_value : Option Str → LuaValue
text_value none = nil
text_value (some s) = string s

-- The outcome of a protected call: the results, or the error's message.
pub data Outcome : Type 0 where
  returned : List LuaValue → Outcome
  raised : LuaValue → Outcome

-- `field` and `set_field` are for tables, `text_field` for the fields of texts, which the string
-- library provides. `next` is `none` where the key is no key of the table. `load_file` gives the
-- chunk as a function, or the message. `number_text` and `text_number` are Lua's conversions, and
-- `is_numeral` says which texts are numbers.
pub record Heap {ℓ} (H : Type ℓ) : Type ℓ where
  pub global : H → Str → LuaValue
  pub set_global : H → Str → LuaValue → H
  pub field : H → ℕ → Str → LuaValue
  pub set_field : H → ℕ → Str → LuaValue → H
  pub text_field : H → Str → LuaValue
  pub new_table : H → ℕ × H
  pub next : H → ℕ → LuaValue → Option (Option (LuaValue × LuaValue))
  pub call : H → LuaValue → List LuaValue → Outcome × H
  pub load_file : H → Str → Outcome × H
  pub number_text : ℕ → Str
  pub text_number : Str → ℕ
  pub is_numeral : Str → Bool

pub record LuaState {ℓ} (H : Type ℓ) : Type ℓ where
  pub stack : List LuaValue
  pub heap : H

abbrev pub is_table : LuaValue → Bool
is_table (table _) = true
is_table _ = false

abbrev pub is_function : LuaValue → Bool
is_function (function _) = true
is_function _ = false

-- A number counts as a string.
abbrev pub is_string : LuaValue → Bool
is_string (string _) = true
is_string (number _) = true
is_string _ = false

-- `lua_gettop(l) == 1`, and a test of the argument.
abbrev pub one_argument : (LuaValue → Bool) → List LuaValue → Bool
one_argument test (v ∷ []) = test v
one_argument test _ = false

-- The value of `lua_pcall` and `luaL_loadfile`: 0, or an error.
pub data LuaStatus : Type 0 where
  lua_ok lua_error : LuaStatus

-- As many results as are asked for.
abbrev pub adjust : ℕ → List LuaValue → List LuaValue
adjust zero rs = []
adjust (suc n) [] = nil ∷ adjust n []
adjust (suc n) (r ∷ rs) = r ∷ adjust n rs

-- Results lie on the stack with the last on top.
abbrev pub push_all : List LuaValue → List LuaValue → List LuaValue
push_all [] st = st
push_all (r ∷ rs) st = push_all rs (r ∷ st)

-- A stack without so many values.
abbrev pub popped : ℕ → List LuaValue → Run (List LuaValue)
popped zero st = ok st
popped (suc n) [] = fault
popped (suc n) (v ∷ st) = popped n st

module _ {ℓ} {H : Type ℓ} where
  abbrev pub push : LuaValue → LuaState H → LuaState H
  push v l = record l { stack = v ∷ l.stack }

  -- `lua_pushstring`, where `none` is `NULL`.
  abbrev pub lua_pushstring : Option Str → LuaState H → LuaState H
  lua_pushstring s l = push (text_value s) l

  abbrev pub lua_pop : ℕ → LuaState H → Run (LuaState H)
  lua_pop n l = do st ← popped n l.stack; ok (record l { stack = st })

  -- The value at a place of the stack.
  abbrev pub value_at : ℕ → LuaState H → Run LuaValue
  value_at i l = deref (get_elem? l.stack i)

module _ {ℓ} {H : Type ℓ} (api : Heap H) where
  abbrev pub lua_getglobal : Str → LuaState H → LuaState H
  lua_getglobal name l = push (api.global l.heap name) l

  abbrev pub set_top_global : Str → H → List LuaValue → Run (LuaState H)
  set_top_global name h [] = fault
  set_top_global name h (v ∷ st) = ok (record { stack = st; heap = api.set_global h name v })

  abbrev pub lua_setglobal : Str → LuaState H → Run (LuaState H)
  lua_setglobal name l = set_top_global name l.heap l.stack

  abbrev pub lua_newtable : LuaState H → LuaState H
  lua_newtable l = record {
    stack = table (api.new_table l.heap).0 ∷ l.stack;
    heap = (api.new_table l.heap).1;
  }

  -- An index of any other value raises an error, which outside a protected call ends the program.
  abbrev pub index_value : H → LuaValue → Str → Run LuaValue
  index_value h (table t) name = ok (api.field h t name)
  index_value h (string s) name = ok (api.text_field h name)
  index_value h _ name = fault

  abbrev pub lua_getfield : ℕ → Str → LuaState H → Run (LuaState H)
  lua_getfield i name l = do t ← value_at i l; v ← index_value l.heap t name; ok (push v l)

  abbrev pub store_field : H → LuaValue → Str → LuaValue → List LuaValue → Run (LuaState H)
  store_field h (table t) name v st = ok (record { stack = st; heap = api.set_field h t name v })
  store_field h _ name v st = fault

  -- The value on top, popped, becomes a field of the table at place `i`.
  abbrev pub lua_setfield : ℕ → Str → LuaState H → Run (LuaState H)
  lua_setfield i name l = do
    t ← value_at i l
    v ← value_at 0 l
    store_field l.heap t name v (drop 1 l.stack)

  -- `lua_tostring` at a place: a number there becomes a string.
  abbrev pub text_at : ℕ → LuaState H → LuaValue → Option Str × LuaState H
  text_at i l (string s) = (some s, l)
  text_at i l (number n) =
      (some (api.number_text n), record l { stack = set l.stack i (string (api.number_text n)) })
  text_at i l _ = (none, l)

  abbrev pub lua_tostring : ℕ → LuaState H → Run (Option Str × LuaState H)
  lua_tostring i l = do v ← value_at i l; ok (text_at i l v)

  -- `lua_next(l, -2)`: whether there is a pair, and the state.
  abbrev pub next_pushed :
      H → List LuaValue → Option (Option (LuaValue × LuaValue)) → Run (Bool × LuaState H)
  next_pushed h st none = fault
  next_pushed h st (some none) = ok (false, record { stack = st; heap = h })
  next_pushed h st (some (some (k, v))) = ok (true, record { stack = v ∷ k ∷ st; heap = h })

  abbrev pub next_on : H → List LuaValue → Run (Bool × LuaState H)
  next_on h (k ∷ table t ∷ st) = next_pushed h (table t ∷ st) (api.next h t k)
  next_on h _ = fault

  abbrev pub lua_next : LuaState H → Run (Bool × LuaState H)
  lua_next l = next_on l.heap l.stack

  abbrev pub finish_call : List LuaValue → ℕ → Outcome × H → LuaStatus × LuaState H
  finish_call st results (returned rs, h) =
      (lua_ok, record { stack = push_all (adjust results rs) st; heap = h })
  finish_call st results (raised message, h) =
      (lua_error, record { stack = message ∷ st; heap = h })

  abbrev pub reversed : List LuaValue → List LuaValue → List LuaValue
  reversed [] acc = acc
  reversed (v ∷ vs) acc = reversed vs (v ∷ acc)

  -- `lua_pcall(l, arguments, results, 0)`.
  abbrev pub lua_pcall : ℕ → ℕ → LuaState H → Run (LuaStatus × LuaState H)
  lua_pcall arguments results l = do
    f ← value_at arguments l
    ok (
        finish_call (drop (suc arguments) l.stack) results
          (api.call l.heap f (reversed (take arguments l.stack) [])))

  -- `luaL_loadfile`.
  abbrev pub lua_loadfile : Str → LuaState H → LuaStatus × LuaState H
  lua_loadfile name l = finish_call l.stack 1 (api.load_file l.heap name)

  -- `lua_reset` of utility.c; `none` is a `script` that is `NULL`.
  abbrev pub reset_globals : LuaState H → Run (LuaState H)
  reset_globals l = do
    l1 ← lua_setglobal (codes "signin") (push nil l)
    l2 ← lua_setglobal (codes "description") (push nil l1)
    lua_setglobal (codes "dir") (push nil l2)

  -- What `reset_globals` makes of the heap.
  abbrev pub cleared : H → H
  cleared h =
      api.set_global
        (api.set_global (api.set_global h (codes "signin") nil) (codes "description") nil)
        (codes "dir") nil

  unfoldable pub lua_reset : Option (LuaState H) → Run (Option (LuaState H))
  lua_reset none = ok none
  lua_reset (some l) = do l' ← reset_globals l; ok (some l')

  -- What `lua_tostring` and `lua_tonumber` give.
  abbrev pub lua_text : LuaValue → Option Str
  lua_text (string s) = some s
  lua_text (number n) = some (api.number_text n)
  lua_text _ = none

  -- `lua_isnumber`: a numeral counts as a number.
  abbrev pub is_number : LuaValue → Bool
  is_number (number _) = true
  is_number (string s) = api.is_numeral s
  is_number _ = false

  abbrev pub lua_number : LuaValue → ℕ
  lua_number (number n) = n
  lua_number (string s) = api.text_number s
  lua_number _ = 0
