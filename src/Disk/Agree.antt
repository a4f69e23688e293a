-- ===== src/Disk/Agree.antt =====
-- `lua_dir`, which reads the script's tables from Lua's stack, against `ndisk_dir` over rows.
use netdisk4tc.Base.{
  ℕ, zero, suc, ◌<◌, ◌≡◌, refl, sym, ◌∙◌, false, Option, none, some, List, [], ◌∷◌, length, arith,
  Str, Run, ok, fault, ◌+◌, ◌≤◌, ◌>>=◌, >>=_assoc, >>=-cong,
}
use netdisk4tc.Utility.{SystemTime}
use netdisk4tc.Dictionary.{Status, Release, dict_set_element, all_succeed}
use netdisk4tc.Lua.{LuaValue, nil, string, table, Heap, LuaState, is_table, lua_pop}
use netdisk4tc.Lua.Walk.{Lists}
use netdisk4tc.Disk.Listing.{FindData, zero_data, Files, Row, set_field, set_fields, add_rows}
use netdisk4tc.Disk.Script.{value_of, read_row, read_value, read_rows}

module _ {ℓ} {H : Type ℓ} (api : Heap H) (ctow wtoc : Str → Str)
    (file_time : SystemTime → Option ℕ) where
  -- The pairs of a table whose keys are texts, and the row that they are.
  abbrev pub keyed : List (Str × LuaValue) → List (LuaValue × LuaValue)
  keyed [] = []
  keyed ((k, v) ∷ fs) = (string k, v) ∷ keyed fs

  abbrev pub row_of_pairs : List (Str × LuaValue) → Row
  row_of_pairs [] = []
  row_of_pairs ((k, v) ∷ fs) = (some k, value_of api ctow wtoc file_time v) ∷ row_of_pairs fs

  read_row_lem :
      (h : H) (r : ℕ) (st : List LuaValue) (fs : List (Str × LuaValue)) (k : LuaValue) (fuel : ℕ)
      (fdata : FindData)
      → Lists api h r k (keyed fs)
      → length fs < fuel
      → read_row api ctow wtoc file_time fuel fdata (record { stack = k ∷ table r ∷ st; heap = h })
        ≡ (do
          fdata' ← set_fields ctow wtoc file_time fdata (row_of_pairs fs)
          ok (fdata', record { stack = table r ∷ st; heap = h }))
  unfolding read_row set_fields
  read_row_lem h r st fs k zero fdata w fits = absurd (omega arith)
  read_row_lem h r st [] k (suc fuel) fdata w fits = rw (w)
  read_row_lem h r st ((k', v) ∷ fs) k (suc fuel) fdata (here, w) fits = rw (here) (
      >>=-cong (set_field ctow wtoc file_time fdata (some k', value_of api ctow wtoc file_time v))
        (λ (d : FindData). read_row_lem h r st fs (string k') fuel d w (omega arith))
      ∙ sym (
          >>=_assoc
            (set_field ctow wtoc file_time fdata (some k', value_of api ctow wtoc file_time v))
            (λ (d : FindData). set_fields ctow wtoc file_time d (row_of_pairs fs))
            (λ (d : FindData). ok (d, record { stack = table r ∷ st; heap = h }))))

  -- A value of the answer as the row that it is: a table with texts as keys, or no table.
  abbrev pub IsRow : H → ℕ → LuaValue → Option Row → Type 0
  IsRow h fuel v none = is_table v ≡ false
  IsRow h fuel v (some row) =
      (r : ℕ) × (fs : List (Str × LuaValue)) × (v ≡ table r)
      × Lists api h r nil (keyed fs)
      × (row ≡ row_of_pairs fs)
      × (length fs < fuel)

  abbrev pub AreRows : H → ℕ → List (LuaValue × LuaValue) → List (Option Row) → Type 0
  AreRows h fuel [] [] = Unit
  AreRows h fuel [] (_ ∷ _) = ⊥
  AreRows h fuel (_ ∷ _) [] = ⊥
  AreRows h fuel ((_, v) ∷ ps) (row ∷ rows) = IsRow h fuel v row × AreRows h fuel ps rows

  -- One row that is added.
  abbrev add_row : Files → Option Row → Run Files
  add_row files none = ok files
  add_row files (some row) = do
    fdata ← set_fields ctow wtoc file_time zero_data row
    (_, files', _) ← dict_set_element files fdata.file_name fdata 592 all_succeed
    ok files'

  -- What `add_row` makes of the row's entry.
  abbrev set_entry : Files → FindData → Run (Status × Files × List (Release FindData (Unit {0})))
  set_entry files d = dict_set_element files d.file_name d 592 all_succeed

  abbrev with_state : LuaState H → Files → Run (Files × LuaState H)
  with_state l files = ok (files, l)

  abbrev entered :
      LuaState H → Status × Files × List (Release FindData (Unit {0})) → Run (Files × LuaState H)
  entered l x = ok (x.1, l)

  abbrev dictionary_of : Status × Files × List (Release FindData (Unit {0})) → Run Files
  dictionary_of x = ok x.1

  entered-eq :
      (l : LuaState H) (m : Run (Status × Files × List (Release FindData (Unit {0}))))
      → (m >>= entered l) ≡ ((m >>= dictionary_of) >>= with_state l)
  entered-eq l (ok x) = refl
  entered-eq l fault = refl

  abbrev enter_with : Files → FindData × LuaState H → Run (Files × LuaState H)
  enter_with files x = set_entry files x.0 >>= entered x.1

  abbrev paired : LuaState H → FindData → Run (FindData × LuaState H)
  paired l d = ok (d, l)

  regroup :
      (files : Files) (r : Run FindData) (l : LuaState H)
      → ((r >>= paired l) >>= enter_with files)
        ≡ ((r >>= λ (d : FindData). (set_entry files d >>= dictionary_of)) >>= with_state l)
  regroup files fault l = refl
  regroup files (ok d) l = entered-eq l (set_entry files d)

  read_value_lem :
      (h : H) (st : List LuaValue) (v : LuaValue) (bound fuel : ℕ) (files : Files)
      (row : Option Row)
      → IsRow h bound v row
      → bound ≤ fuel
      → read_value api ctow wtoc file_time fuel files v (record { stack = v ∷ st; heap = h })
        ≡ (add_row files row >>= with_state (record { stack = v ∷ st; heap = h }))
  unfolding read_value
  read_value_lem h st v bound fuel files none w le = rw (w)
  read_value_lem h st v bound fuel files (some row) (r, fs, is, w, same, fits) le =
      rw (is, same, read_row_lem h r st fs nil fuel zero_data w (omega arith))
        (regroup files (set_fields ctow wtoc file_time zero_data (row_of_pairs fs))
          (record { stack = table r ∷ st; heap = h }))

  follow_entry :
      (m : Run (Status × Files × List (Release FindData (Unit {0})))) (g : Files → Run Files)
      → (m >>= λ (x : Status × Files × List (Release FindData (Unit {0}))). g x.1)
        ≡ ((m >>= dictionary_of) >>= g)
  follow_entry (ok x) g = refl
  follow_entry fault g = refl

  follow :
      (files : Files) (r : Run FindData) (g : Files → Run Files)
      → (r >>= λ (d : FindData).
          (set_entry files d >>= λ (x : Status × Files × List (Release FindData (Unit {0}))).
          g x.1))
        ≡ ((r >>= λ (d : FindData). (set_entry files d >>= dictionary_of)) >>= g)
  follow files fault g = refl
  follow files (ok d) g = follow_entry (set_entry files d) g

  add_rows-cons :
      (files : Files) (row : Option Row) (rows : List (Option Row))
      → add_rows ctow wtoc file_time files (row ∷ rows)
        ≡ (add_row files row >>= λ (f : Files). add_rows ctow wtoc file_time f rows)
  unfolding add_rows
  add_rows-cons files none rows = refl
  add_rows-cons files (some row) rows =
      follow files (set_fields ctow wtoc file_time zero_data row)
        (λ (f : Files). add_rows ctow wtoc file_time f rows)

  add_rows-nil : (files : Files) → add_rows ctow wtoc file_time files [] ≡ ok files
  unfolding add_rows
  add_rows-nil files = refl

  pub read_rows_lem :
      (h : H) (t : ℕ) (st : List LuaValue) (ps : List (LuaValue × LuaValue))
      (rows : List (Option Row)) (k : LuaValue) (fuel bound : ℕ) (files : Files)
      → Lists api h t k ps
      → AreRows h bound ps rows
      → bound + length ps < fuel
      → read_rows api ctow wtoc file_time fuel files (record { stack = k ∷ table t ∷ st; heap = h })
        ≡ (add_rows ctow wtoc file_time files rows
            >>= with_state (record { stack = table t ∷ st; heap = h }))
  unfolding read_rows
  read_rows_lem h t st ps rows k zero bound files w are fits = absurd (omega arith)
  read_rows_lem h t st [] [] k (suc fuel) bound files w are fits = rw (w, add_rows-nil files)
  read_rows_lem h t st [] (_ ∷ _) k (suc fuel) bound files w are fits = absurd are
  read_rows_lem h t st (_ ∷ _) [] k (suc fuel) bound files w are fits = absurd are
  read_rows_lem h t st ((k', v) ∷ ps) (row ∷ rows) k (suc fuel) bound files (here, w) (is, are)
        fits =
      rw
        (
          here,
          add_rows-cons files row rows,
          read_value_lem h (k' ∷ table t ∷ st) v bound fuel files row is (omega arith),
        )
        (>>=_assoc (add_row files row)
            (with_state (record { stack = v ∷ k' ∷ table t ∷ st; heap = h }))
            (λ (x : Files × LuaState H). do
              l3 ← lua_pop 1 x.1
              read_rows api ctow wtoc file_time fuel x.0 l3)
          ∙ >>=-cong (add_row files row)
              (λ (f : Files). read_rows_lem h t st ps rows k' fuel bound f w are (omega arith))
          ∙ sym (
              >>=_assoc (add_row files row) (λ (f : Files). add_rows ctow wtoc file_time f rows)
                (with_state (record { stack = table t ∷ st; heap = h }))))
