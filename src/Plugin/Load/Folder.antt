-- ===== src/Plugin/Load/Folder.antt =====
-- The loop of `DllMain` that cuts the module's name off its path.
use netdisk4tc.Base.{
  ℕ, suc, ◌+◌, ◌≡◌, ◌≢◌, refl, sym, ◌∙◌, ap, ◌==◌, false, [], ◌∷◌, ◌++◌, append_assoc, length,
  length-append, get_elem?-concat, set-concat, arith, Str, ok, ◌>>=◌,
}
use netdisk4tc.Utility.{Block, c_string}
use netdisk4tc.Utility.Trim.{NoNul}
use netdisk4tc.Plugin.{trim_path}

-- Characters other than the backslash.
abbrev pub NoBackslash : Str → Type 0
NoBackslash [] = Unit
NoBackslash (c ∷ s) = (c ≢ b'\\') × NoBackslash s

abbrev pub zeros : Block → Block
zeros [] = []
zeros (_ ∷ s) = 0 ∷ zeros s

trim_path-cong : {b b' : Block} {i i' : ℕ} → b ≡ b' → i ≡ i' → trim_path b i ≡ trim_path b' i'
trim_path-cong h k = cc

other_char : (c : ℕ) → c ≢ b'\\' → (c == b'\\') ≡ false
other_char c h = ground arith

trim_path-char :
    (A : Block) (c : ℕ) (t : Block)
    → c ≢ b'\\'
    → trim_path (A ++ (c ∷ t)) (suc (length A)) ≡ trim_path (A ++ (0 ∷ t)) (length A)
unfolding trim_path
trim_path-char A c t plain =
    rw (trim_path, get_elem?-concat A t c, set-concat A t c 0, other_char c plain)

trim_path-zeros :
    (A t : Block)
    → NoBackslash t
    → trim_path (A ++ t) (length A + length t) ≡ trim_path (A ++ zeros t) (length A)
trim_path-zeros A [] plain = ap (trim_path (A ++ [])) (omega arith)
trim_path-zeros A (c ∷ t) (plain, plains) =
    trim_path-cong (sym (append_assoc A (c ∷ []) t)) (omega (arith, length-append A (c ∷ [])))
    ∙ trim_path-zeros (A ++ (c ∷ [])) t plains
    ∙ trim_path-cong (append_assoc A (c ∷ []) (zeros t)) (omega (arith, length-append A (c ∷ [])))
    ∙ trim_path-char A c (zeros t) plain

trim_path-stops :
    (A t : Block) → trim_path (A ++ (b'\\' ∷ t)) (suc (length A)) ≡ ok (A ++ (b'\\' ∷ t))
unfolding trim_path
trim_path-stops A t = rw (trim_path, get_elem?-concat A t b'\\')

pub c_string-folder :
    (dir t : Block) → NoNul dir → c_string (dir ++ (b'\\' ∷ zeros t)) ≡ dir ++ (b'\\' ∷ [])
unfolding c_string
c_string-folder [] [] plain = refl
c_string-folder [] (_ ∷ t) plain = refl
c_string-folder (c ∷ dir) t (plain, plains) = ground (arith, c_string-folder dir t plains)

pub trim_path-folder :
    (dir tail : Block)
    → NoBackslash tail
    → length dir + 1 + length tail ≡ 260
    → trim_path (dir ++ (b'\\' ∷ tail)) 260 ≡ ok (dir ++ (b'\\' ∷ zeros tail))
trim_path-folder dir tail plains size =
    trim_path-cong (sym (append_assoc dir (b'\\' ∷ []) tail))
      (omega (arith, length-append dir (b'\\' ∷ [])))
    ∙ trim_path-zeros (dir ++ (b'\\' ∷ [])) tail plains
    ∙ trim_path-cong (append_assoc dir (b'\\' ∷ []) (zeros tail))
        (omega (arith, length-append dir (b'\\' ∷ [])))
    ∙ trim_path-stops dir (zeros tail)

-- The buffer holds the module's path, a folder, a backslash and a name, and is filled with
-- terminators. The loop leaves the folder with its backslash.
trim_path-c_string :
    (dir tail : Block)
    → NoNul dir
    → NoBackslash tail
    → length dir + 1 + length tail ≡ 260
    → (do block ← trim_path (dir ++ (b'\\' ∷ tail)) 260; ok (c_string block))
      ≡ ok (dir ++ (b'\\' ∷ []))
trim_path-c_string dir tail plain plains size =
    rw (trim_path-folder dir tail plains size, c_string-folder dir tail plain)
