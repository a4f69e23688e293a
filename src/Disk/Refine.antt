-- ===== src/Disk/Refine.antt =====
-- `ndisk_dir` as the code does it on Lua's stack, against `ndisk_dir` over a script's rows.
use netdisk4tc.Base.{
  ℕ, ◌+◌, ◌<◌, ◌≡◌, refl, sym, true, Option, none, some, List, [], ◌∷◌, ◌++◌, length, Str, codes,
  Run, ok, ◌>>=◌, >>=_assoc, >>=-after,
}
use netdisk4tc.Utility.{SystemTime}
use netdisk4tc.Lua.{
  LuaValue, nil, lua_pop, table, function, text_value, Heap, cleared, LuaState, Outcome, returned,
  raised,
}
use netdisk4tc.Lua.Walk.{Lists}
use netdisk4tc.Disk.{DiskStatus, ndisk_ok, DiskEntry, Disk}
use netdisk4tc.Disk.Listing.{Files, Row, Script, push_optional, ndisk_lua_push, add_rows, ndisk_dir}
use netdisk4tc.Disk.Script.{put_optional, lua_push_disk, call_dir, lua_dir}
use netdisk4tc.Disk.Agree.{AreRows, read_rows_lem}

module _ {ℓ} {H : Type ℓ} (api : Heap H) where
  -- The heap after fields of a table have been set, one after another.
  abbrev pub put_fields : H → ℕ → List (Str × Option Str) → H
  put_fields h t [] = h
  put_fields h t ((name, text) ∷ fs) = put_fields (api.set_field h t name (text_value text)) t fs

  put_fields-append :
      (h : H) (t : ℕ) (fs gs : List (Str × Option Str))
      → put_fields h t (fs ++ gs) ≡ put_fields (put_fields h t fs) t gs
  put_fields-append h t [] gs = refl
  put_fields-append h t ((name, text) ∷ fs) gs =
      put_fields-append (api.set_field h t name (text_value text)) t fs gs

  -- What the call of the script's kind leaves on the stack: nothing, or, where it fails, the table
  -- of the kinds.
  abbrev pub left_over : Outcome → ℕ → List LuaValue → List LuaValue
  left_over (returned _) e st = st
  left_over (raised _) e st = table e ∷ st

  module _ (ctow wtoc : Str → Str) (file_time : SystemTime → Option ℕ) where
    put_optional_lem :
        (h : H) (t : ℕ) (st : List LuaValue) (name : Str) (text : Option Str)
        → put_optional api ctow wtoc file_time name text (record { stack = table t ∷ st; heap = h })
          ≡ ok (record {
            stack = table t ∷ st;
            heap = put_fields h t (push_optional ctow wtoc file_time name text);
          })
    put_optional_lem h t st name none = refl
    put_optional_lem h t st name (some s) = refl

    lua_push_disk_lem :
        (h : H) (st : List LuaValue) (disk : Disk)
        → lua_push_disk api ctow wtoc file_time disk (record { stack = st; heap = h })
          ≡ ok (record {
            stack = table (api.new_table h).0 ∷ st;
            heap =
                put_fields
                  (api.new_table h).1
                  (api.new_table h).0
                  (ndisk_lua_push ctow wtoc file_time disk);
          })
    unfolding lua_push_disk ndisk_lua_push
    lua_push_disk_lem h st disk = rw (put_fields-append, put_optional_lem, put_optional_lem)

    abbrev finished : LuaState H → Files → Run (DiskStatus × Files × LuaState H)
    finished l files = ok (ndisk_ok, files, l)

    abbrev pop_answer : Files × LuaState H → Run (DiskStatus × Files × LuaState H)
    pop_answer (files, l) = do l' ← lua_pop 1 l; ok (ndisk_ok, files, l')

    call_dir_lem :
        (fuel bound : ℕ) (files : Files) (disk : Disk) (path : Str) (st : List LuaValue) (h h' : H)
        (f a : ℕ) (rest : List LuaValue) (ps : List (LuaValue × LuaValue))
        (rows : List (Option Row))
        → api.call
            (put_fields
              (api.new_table h).1
              (api.new_table h).0
              (ndisk_lua_push ctow wtoc file_time disk ++ ((codes "path", some (wtoc path)) ∷ [])))
            (function f)
            (table (api.new_table h).0 ∷ [])
          ≡ (returned (table a ∷ rest), h')
        → Lists api h' a nil ps
        → AreRows api ctow wtoc file_time h' bound ps rows
        → bound + length ps < fuel
        → call_dir api ctow wtoc file_time fuel files disk path
            (record { stack = function f ∷ st; heap = h })
          ≡ (add_rows ctow wtoc file_time files rows
              >>= finished (record { stack = st; heap = h' }))
    call_dir_lem fuel bound files disk path st h h' f a rest ps rows call w are fits =
        rw
          (
            lua_push_disk_lem h (function f ∷ st) disk,
            ← put_fields-append (api.new_table h).1 (api.new_table h).0
                (ndisk_lua_push ctow wtoc file_time disk) ((codes "path", some (wtoc path)) ∷ []),
            call,
            read_rows_lem api ctow wtoc file_time h' a st ps rows nil fuel bound files w are fits,
          )
          (>>=_assoc (add_rows ctow wtoc file_time files rows)
            (λ (fs : Files). ok (fs, record { stack = table a ∷ st; heap = h' })) pop_answer)

    ndisk_dir_lem :
        (files : Files) (entry : DiskEntry) (disk : Disk) (path : Str) (scripts : Str → Script)
        (rows : List (Option Row))
        → (scripts (wtoc entry.name)).has_dir ≡ true
        → (scripts (wtoc entry.name)).dir
            (ndisk_lua_push ctow wtoc file_time disk ++ ((codes "path", some (wtoc path)) ∷ []))
          ≡ some rows
        → ndisk_dir ctow wtoc file_time scripts files entry disk path
          ≡ (add_rows ctow wtoc file_time files rows >>= λ (fs : Files). ok (ndisk_ok, fs))
    unfolding ndisk_dir
    ndisk_dir_lem files entry disk path scripts rows has answer = rw (has, answer)

    -- The code, with every call of Lua, does what the listing over rows does. `entries` is a table,
    -- and the call of the script's kind makes a global function `dir`; `dir`, called on the table of
    -- the disk's texts and the path, answers with a table; `lua_next` enumerates it and its rows,
    -- each a table with texts as keys or no table; there are more rounds than pairs; and the
    -- listing has the same rows. Then the result and the files are those of `ndisk_dir` over the
    -- rows, and the stack is as it was, except that a kind whose call fails leaves the table of the
    -- kinds on it.
    pub lua_dir-ndisk_dir :
        (fuel bound : ℕ) (files : Files) (entry : DiskEntry) (disk : Disk) (path : Str)
        (st : List LuaValue) (h h1 h2 : H) (scripts : Str → Script) (e f a : ℕ) (o : Outcome)
        (rest : List LuaValue) (ps : List (LuaValue × LuaValue)) (rows : List (Option Row))
        → api.global (cleared api h) (codes "entries") ≡ table e
        → api.call (cleared api h) (api.field (cleared api h) e (wtoc entry.name)) [] ≡ (o, h1)
        → api.global h1 (codes "dir") ≡ function f
        → api.call
            (put_fields
              (api.new_table h1).1
              (api.new_table h1).0
              (ndisk_lua_push ctow wtoc file_time disk ++ ((codes "path", some (wtoc path)) ∷ [])))
            (function f)
            (table (api.new_table h1).0 ∷ [])
          ≡ (returned (table a ∷ rest), h2)
        → Lists api h2 a nil ps
        → AreRows api ctow wtoc file_time h2 bound ps rows
        → bound + length ps < fuel
        → (scripts (wtoc entry.name)).has_dir ≡ true
        → (scripts (wtoc entry.name)).dir
            (ndisk_lua_push ctow wtoc file_time disk ++ ((codes "path", some (wtoc path)) ∷ []))
          ≡ some rows
        → lua_dir api ctow wtoc file_time fuel files entry disk path
            (record { stack = st; heap = h })
          ≡ (do
            (code, files') ← ndisk_dir ctow wtoc file_time scripts files entry disk path
            ok (code, files', record { stack = left_over o e st; heap = h2 }))
    unfolding lua_dir
    lua_dir-ndisk_dir fuel bound files entry disk path st h h1 h2 scripts e f a (returned rs) rest
          ps rows ent run dir call w are fits has answer =
        rw
          (
            ent,
            run,
            dir,
            ndisk_dir_lem files entry disk path scripts rows has answer,
            call_dir_lem fuel bound files disk path (st) h1 h2 f a rest ps rows call w are fits,
          )
          (sym (
            >>=-after (add_rows ctow wtoc file_time files rows) (λ (fs : Files). (ndisk_ok, fs))
              (λ (x : DiskStatus × Files). ok (x.0, x.1, record { stack = st; heap = h2 }))))
    lua_dir-ndisk_dir fuel bound files entry disk path st h h1 h2 scripts e f a (raised m) rest ps
          rows ent run dir call w are fits has answer =
        rw
          (
            ent,
            run,
            dir,
            ndisk_dir_lem files entry disk path scripts rows has answer,
            call_dir_lem fuel bound files disk path (table e ∷ st) h1 h2 f a rest ps rows call w are
                fits,
          )
          (sym (
            >>=-after (add_rows ctow wtoc file_time files rows) (λ (fs : Files). (ndisk_ok, fs))
              (λ (x : DiskStatus × Files).
                ok (x.0, x.1, record { stack = table e ∷ st; heap = h2 }))))
