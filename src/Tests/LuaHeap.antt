-- ===== src/Tests/LuaHeap.antt =====
-- A small Lua heap: globals and tables as association lists, and functions given by number.
use netdisk4tc.Base.{
  ℕ, ◌+◌, Bool, false, Option, none, some, List, [], ◌∷◌, if◌then◌else◌, ◌==◌, Str, codes, eq_str,
}
use netdisk4tc.Lua.{LuaValue, nil, number, string, function, Outcome, raised, Heap}

abbrev pub Fields : Type 0
Fields = List (LuaValue × LuaValue)

pub record Store : Type 0 where
  pub globals : List (Str × LuaValue)
  pub tables : List (ℕ × Fields)
  pub fresh : ℕ

-- Keys are texts and numbers.
abbrev same_key : LuaValue → LuaValue → Bool
same_key (number m) (number n) = m == n
same_key (string s) (string t) = eq_str s t
same_key _ _ = false

abbrev global_of : List (Str × LuaValue) → Str → LuaValue
global_of [] name = nil
global_of ((n, v) ∷ gs) name = if eq_str n name then v else global_of gs name

abbrev fields_of : List (ℕ × Fields) → ℕ → Fields
fields_of [] t = []
fields_of ((u, fs) ∷ ts) t = if u == t then fs else fields_of ts t

abbrev field_of : Fields → LuaValue → LuaValue
field_of [] key = nil
field_of ((k, v) ∷ fs) key = if same_key k key then v else field_of fs key

abbrev first_of : Fields → Option (LuaValue × LuaValue)
first_of [] = none
first_of (f ∷ fs) = some f

abbrev next_of : Fields → LuaValue → Option (Option (LuaValue × LuaValue))
next_of fs nil = some (first_of fs)
next_of [] key = none
next_of ((k, v) ∷ fs) key = if same_key k key then some (first_of fs) else next_of fs key

abbrev store_in : List (ℕ × Fields) → ℕ → LuaValue → LuaValue → List (ℕ × Fields)
store_in ts t key v = (t, (key, v) ∷ fields_of ts t) ∷ ts

abbrev call_of : (ℕ → Store → Outcome × Store) → Store → LuaValue → Outcome × Store
call_of functions h (function f) = functions f h
call_of functions h _ = (raised (string (codes "not a function")), h)

-- The functions, which do without their arguments here, and the script files.
abbrev pub lua_heap : (ℕ → Store → Outcome × Store) → (Str → Store → Outcome × Store) → Heap Store
lua_heap functions scripts = record {
  global = λ (h : Store) (name : Str). global_of h.globals name;
  set_global =
      λ (h : Store) (name : Str) (v : LuaValue). record h { globals = (name, v) ∷ h.globals };
  field = λ (h : Store) (t : ℕ) (name : Str). field_of (fields_of h.tables t) (string name);
  set_field = λ (h : Store) (t : ℕ) (name : Str) (v : LuaValue). record h {
    tables = store_in h.tables t (string name) v;
  };
  text_field = λ (h : Store) (name : Str). nil;
  new_table = λ (h : Store). (h.fresh, record h { fresh = h.fresh + 1 });
  next = λ (h : Store) (t : ℕ) (k : LuaValue). next_of (fields_of h.tables t) k;
  call = λ (h : Store) (f : LuaValue) (vs : List LuaValue). call_of functions h f;
  load_file = λ (h : Store) (name : Str). scripts name h;
  number_text = λ (n : ℕ). [];
  text_number = λ (s : Str). 0;
  is_numeral = λ (s : Str). false;
}
