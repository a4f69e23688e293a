-- ===== src/Wrapper/Arguments.antt =====
-- `wp_http` and `wp_savt` of netdisk4tc/wrapper.c with the calls of Lua that read their arguments, and
-- the relation to the functions over arguments that are read.
use netdisk4tc.Base.{
  ℕ, zero, suc, ◌<◌, ◌≡◌, sym, ◌∙◌, Bool, true, false, Option, none, some, List, [], ◌∷◌,
  if◌then◌else◌, length, arith, Str, Run, ok, fault, ◌>>=◌, >>=_assoc, >>=-cong,
}
use netdisk4tc.Disk.{Disks}
use netdisk4tc.Disk.Store.{Profile}
use netdisk4tc.Http.Connect.{Network}
use netdisk4tc.Http.Transfer.{Recv}
use netdisk4tc.Lua.{
  LuaValue, nil, boolean, string, table, text_value, Heap, LuaState, is_table, one_argument, push,
  lua_pop, lua_next, lua_tostring, lua_text,
}
use netdisk4tc.Lua.Text.{text_at-top}
use netdisk4tc.Lua.Walk.{Lists}
use netdisk4tc.Wrapper.{HttpCall, no_call, call_field, call_fields, run_call, wp_http, wp_savt}

module _ {ℓ} {H : Type ℓ} (api : Heap H) where
  -- The loop over the keys of the table below the key on top.
  unfoldable pub read_fields : ℕ → HttpCall → LuaState H → Run (HttpCall × LuaState H)
  unfolding call_field
  read_fields zero call l = fault
  read_fields (suc fuel) call l = do
    (more, l1) ← lua_next api l
    elim more [
      | false ↦ ok (call, l1)
      | true ↦ (do
        (key, l2) ← lua_tostring api 1 l1
        (value, l3) ← lua_tostring api 0 l2
        call' ← call_field call (key, value)
        l4 ← lua_pop 1 l3
        read_fields fuel call' l4)
    ]

  -- `wp_http`: the value that is returned.
  unfoldable pub lua_http : (Str → Str) → Network → Bool → List Recv → ℕ → LuaState H → Run LuaValue
  unfolding read_fields run_call
  lua_http ctow net init rs fuel l =
      if one_argument is_table l.stack
      then (do
        (call, _) ← read_fields fuel no_call (push nil l)
        answer ← run_call ctow net init rs call
        ok (text_value answer))
      else ok nil

  abbrev both : Option Str → Option Str → Option (Str × Str)
  both (some k) (some t) = some (k, t)
  both _ _ = none

  -- Two strings, the key below the token.
  unfoldable pub two_strings : List LuaValue → Option (Str × Str)
  two_strings (token ∷ key ∷ []) = both (lua_text api key) (lua_text api token)
  two_strings _ = none

  -- `wp_savt`: the value that is returned, the disks and the store.
  unfoldable pub lua_savt {κ} :
      {S : Type κ}
      → Profile S
      → (Str → Str)
      → Str
      → Disks
      → LuaState H
      → S
      → Run (LuaValue × Disks × S)
  unfolding wp_savt two_strings
  lua_savt profile ctow my_dir disks l s = do
    (saved, disks', s') ← wp_savt profile ctow my_dir disks (two_strings l.stack) s
    ok (boolean saved, disks', s')

  -- The pairs of a table with texts as keys, and the fields that they are.
  abbrev pub pairs_of : List (Str × LuaValue) → List (LuaValue × LuaValue)
  pairs_of [] = []
  pairs_of ((k, v) ∷ fs) = (string k, v) ∷ pairs_of fs

  abbrev pub fields_of : List (Str × LuaValue) → List (Option Str × Option Str)
  fields_of [] = []
  fields_of ((k, v) ∷ fs) = (some k, lua_text api v) ∷ fields_of fs

  abbrev with_table : ℕ → H → HttpCall → Run (HttpCall × LuaState H)
  with_table t h call = ok (call, record { stack = table t ∷ []; heap = h })

  read_fields_lem :
      (h : H) (t : ℕ) (fs : List (Str × LuaValue)) (k : LuaValue) (fuel : ℕ) (call : HttpCall)
      → Lists api h t k (pairs_of fs)
      → length fs < fuel
      → read_fields fuel call (record { stack = k ∷ table t ∷ []; heap = h })
        ≡ (call_fields call (fields_of fs) >>= with_table t h)
  unfolding read_fields call_fields
  read_fields_lem h t fs k zero call w fits = absurd (omega arith)
  read_fields_lem h t [] k (suc fuel) call w fits = rw (w)
  read_fields_lem h t ((k', v) ∷ fs) k (suc fuel) call (here, w) fits =
      rw (here, text_at-top api v (string k' ∷ table t ∷ []) h)
        (>>=-cong (call_field call (some k', lua_text api v))
            (λ (c : HttpCall). read_fields_lem h t fs (string k') fuel c w (omega arith))
          ∙ sym (
              >>=_assoc (call_field call (some k', lua_text api v))
                (λ (c : HttpCall). call_fields c (fields_of fs)) (with_table t h)))

  abbrev returned_text : Option Str → Run LuaValue
  returned_text answer = ok (text_value answer)

  abbrev run_read : (Str → Str) → Network → Bool → List Recv → HttpCall × LuaState H → Run LuaValue
  run_read ctow net init rs (call, l) = do
    answer ← run_call ctow net init rs call
    ok (text_value answer)

  -- A script's call of `http` with a table that `lua_next` enumerates, its keys texts, and
  -- with more rounds than the table has pairs, returns what `wp_http` gives for the table's fields.
  pub lua_http-wp_http :
      (ctow : Str → Str) (net : Network) (init : Bool) (rs : List Recv) (fuel : ℕ) (h : H) (t : ℕ)
      (fs : List (Str × LuaValue))
      → Lists api h t nil (pairs_of fs)
      → length fs < fuel
      → lua_http ctow net init rs fuel (record { stack = table t ∷ []; heap = h })
        ≡ (wp_http ctow net init rs (some (fields_of fs)) >>= λ (s : Option Str). ok (text_value s))
  unfolding lua_http wp_http
  lua_http-wp_http ctow net init rs fuel h t fs w fits =
      rw (read_fields_lem h t fs nil fuel no_call w fits) (
        >>=_assoc (call_fields no_call (fields_of fs)) (with_table t h) (run_read ctow net init rs)
        ∙ sym (
            >>=_assoc (call_fields no_call (fields_of fs)) (run_call ctow net init rs)
              returned_text))
