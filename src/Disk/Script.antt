-- ===== src/Disk/Script.antt =====
-- `ndisk_lua_push` and `ndisk_dir` of netdisk4tc/disk.c with every call of Lua: the tables are read
-- from the stack. Disk.Listing has the same functions over the rows that a script gives; Disk.Agree
-- relates the two.
use netdisk4tc.Base.{
  ℕ, zero, suc, true, false, Option, none, some, if◌then◌else◌, Str, codes, Run, ok, fault, ◌>>=◌,
}
use netdisk4tc.Utility.{SystemTime}
use netdisk4tc.Dictionary.{dict_set_element, all_succeed}
use netdisk4tc.Lua.{
  LuaValue, nil, Heap, LuaState, is_table, is_function, push, lua_pushstring, lua_pop, value_at,
  lua_getglobal, lua_newtable, lua_getfield, lua_setfield, lua_tostring, lua_next, lua_pcall,
  reset_globals, lua_text, lua_number,
}
use netdisk4tc.Disk.{DiskStatus, ndisk_ok, ndisk_fatal, DiskEntry, Disk}
use netdisk4tc.Disk.Listing.{FindData, zero_data, Files, Value, narrow, set_field}

module _ {ℓ} {H : Type ℓ} (api : Heap H) (ctow wtoc : Str → Str)
    (file_time : SystemTime → Option ℕ) where
  -- `lua_pushstring(l, tmp); lua_setfield(l, -2, name);`
  abbrev pub put_text : Str → Option Str → LuaState H → Run (LuaState H)
  put_text name text l = lua_setfield api 1 name (lua_pushstring text l)

  abbrev pub put_optional : Str → Option Str → LuaState H → Run (LuaState H)
  put_optional name none l = ok l
  put_optional name (some text) l = put_text name (some (wtoc text)) l

  -- `ndisk_lua_push`.
  unfoldable pub lua_push_disk : Disk → LuaState H → Run (LuaState H)
  lua_push_disk disk l = do
    l1 ← put_text (codes "nickname") (narrow ctow wtoc file_time disk.nickname) (lua_newtable api l)
    l2 ← put_text (codes "username") (narrow ctow wtoc file_time disk.username) l1
    l3 ← put_optional (codes "token") disk.token l2
    put_optional (codes "secret") disk.secret l3

  -- What a value of a row gives. `lua_tostring` at the value changes its place on the stack only,
  -- which is popped.
  abbrev pub value_of : LuaValue → Value
  value_of v = record { string = lua_text api v; number = lua_number api v }

  -- The loop over the keys of the row below the key on top.
  unfoldable pub read_row : ℕ → FindData → LuaState H → Run (FindData × LuaState H)
  read_row zero fdata l = fault
  read_row (suc fuel) fdata l = do
    (more, l1) ← lua_next api l
    elim more [
      | false ↦ ok (fdata, l1)
      | true ↦ (do
        (key, l2) ← lua_tostring api 1 l1
        v ← value_at 0 l2
        fdata' ← set_field ctow wtoc file_time fdata (key, value_of v)
        l3 ← lua_pop 1 l2
        read_row fuel fdata' l3)
    ]

  -- The value on top: a table is read and added, anything else is passed over.
  unfoldable pub read_value : ℕ → Files → LuaValue → LuaState H → Run (Files × LuaState H)
  unfolding read_row dict_set_element
  read_value fuel files v l =
      if is_table v
      then (do
        (fdata, l1) ← read_row fuel zero_data (push nil l)
        (_, files', _) ← dict_set_element files fdata.file_name fdata 592 all_succeed
        ok (files', l1))
      else ok (files, l)

  -- The loop over the rows of the table below the key on top.
  unfoldable pub read_rows : ℕ → Files → LuaState H → Run (Files × LuaState H)
  unfolding read_value
  read_rows zero files l = fault
  read_rows (suc fuel) files l = do
    (more, l1) ← lua_next api l
    elim more [
      | false ↦ ok (files, l1)
      | true ↦ (do
        v ← value_at 0 l1
        (files', l2) ← read_value fuel files v l1
        l3 ← lua_pop 1 l2
        read_rows fuel files' l3)
    ]

  abbrev pub read_answer : ℕ → Files → LuaValue → LuaState H → Run (Files × LuaState H)
  read_answer fuel files v l =
      if is_table v then read_rows fuel files (push nil l) else ok (files, l)

  -- The call of the script's function `dir`, which is on top.
  abbrev pub call_dir : ℕ → Files → Disk → Str → LuaState H → Run (DiskStatus × Files × LuaState H)
  call_dir fuel files disk path l = do
    l1 ← lua_push_disk disk l
    l2 ← put_text (codes "path") (some (wtoc path)) l1
    (_, l3) ← lua_pcall api 1 1 l2
    v ← value_at 0 l3
    (files', l4) ← read_answer fuel files v l3
    l5 ← lua_pop 1 l4
    ok (ndisk_ok, files', l5)

  -- `ndisk_dir`. `fuel` bounds the rounds of each loop: more than the pairs of any table read are
  -- enough.
  unfoldable pub lua_dir :
      ℕ → Files → DiskEntry → Disk → Str → LuaState H → Run (DiskStatus × Files × LuaState H)
  lua_dir fuel files entry disk path l = do
    l1 ← reset_globals api l
    l2 ← lua_getfield api 0 (wtoc entry.name) (lua_getglobal api (codes "entries") l1)
    (_, l3) ← lua_pcall api 0 0 l2
    l4 ← lua_pop 1 l3
    let l5 = lua_getglobal api (codes "dir") l4
    f ← value_at 0 l5
    if is_function f then call_dir fuel files disk path l5 else ok (ndisk_fatal, files, l5)
