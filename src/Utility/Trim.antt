-- ===== src/Utility/Trim.antt =====
-- `trim` and `wtrim` on the block that holds the string.
use netdisk4tc.Base.{
  ℕ, suc, ◌+◌, ◌≡◌, ◌≢◌, refl, ap, ◌∙◌, true, false, arith, lt→ltb, if◌then◌else◌, length,
  length-append, [], ◌∷◌, ◌++◌, append_assoc, drop, drop-append, set-concat, le→ltb, Str, ok, fault,
}
use netdisk4tc.Utility.{is_blank, Block, skip_blanks, last_word, put_nul, trim, c_string}

abbrev pub Blanks : Str → Type 0
Blanks [] = Unit
Blanks (c ∷ s) = (is_blank c ≡ true) × Blanks s

abbrev pub NoNul : Str → Type 0
NoNul [] = Unit
NoNul (c ∷ s) = (c ≢ 0) × NoNul s

abbrev pub StartsWord : Str → Type 0
StartsWord [] = ⊥
StartsWord (c ∷ s) = is_blank c ≡ false

skip_blanks-append :
    (pre : Str) (c : ℕ) (b : Block) (i : ℕ)
    → Blanks pre
    → is_blank c ≡ false
    → skip_blanks (pre ++ (c ∷ b)) i ≡ ok (i + length pre)
unfolding skip_blanks
skip_blanks-append [] c b i _ h = rw h (ap ok (omega arith))
skip_blanks-append (x ∷ pre) c b i (hx, w) h =
    rw hx (skip_blanks-append pre c b (suc i) w h ∙ ap ok (omega arith))

-- Behind the last word only blanks are read.
last_word-Blanks :
    (post : Str) (b : Block) (i last : ℕ)
    → Blanks post
    → last_word (post ++ (0 ∷ b)) i last ≡ ok last
unfolding last_word
last_word-Blanks [] b i last _ = refl
last_word-Blanks (x ∷ post) b i last (hx, w) =
    ground (arith, last_word-Blanks post b (suc i) last w)

last_word-append :
    (word : Str) (c : ℕ) (post : Str) (b : Block) (i last : ℕ)
    → NoNul word
    → c ≢ 0
    → is_blank c ≡ false
    → Blanks post
    → last_word (word ++ (c ∷ (post ++ (0 ∷ b)))) i last ≡ ok (i + length word)
unfolding last_word
last_word-append [] c post b i last _ nz hc w = ground (arith, last_word-Blanks post b (suc i) i w)
last_word-append (x ∷ word) c post b i last (hx, h) nz hc w =
    ground
      (arith, last_word-append word c post b (suc i) (if is_blank x then last else i) h nz hc w)

pub c_string-append : (s : Str) (b : Block) → NoNul s → c_string (s ++ (0 ∷ b)) ≡ s
unfolding c_string
c_string-append [] b _ = refl
c_string-append (x ∷ s) b (hx, h) = ground (arith, c_string-append s b h)

put_nul-concat :
    (xs : Str) (y : ℕ) (ys : Block) (i : ℕ)
    → i ≡ length xs
    → put_nul (xs ++ (y ∷ ys)) i ≡ ok (xs ++ (0 ∷ ys))
unfolding put_nul
put_nul-concat xs y ys i e = rw (
  e,
  lt→ltb (length xs) (length (xs ++ (y ∷ ys))) (omega (arith, length-append xs (y ∷ ys))),
  set-concat,
)

-- What follows the last word: at least the terminator.
behind : (post : Str) (b : Block) → (y : ℕ) × (ys : Block) × (post ++ (0 ∷ b) ≡ y ∷ ys)
behind [] b = (0, b, refl)
behind (x ∷ post) b = (x, post ++ (0 ∷ b), refl)

skip_front :
    (pre : Str) (c : ℕ) (b : Block)
    → Blanks pre
    → is_blank c ≡ false
    → skip_blanks (pre ++ (c ∷ b)) 0 ≡ ok (length pre)
skip_front pre c b w h = skip_blanks-append pre c b 0 w h ∙ ap ok (omega arith)

skip_pre :
    (pre word : Str) (c : ℕ) (b : Block)
    → Blanks pre
    → StartsWord (word ++ (c ∷ []))
    → skip_blanks (pre ++ (word ++ (c ∷ b))) 0 ≡ ok (length pre)
skip_pre pre [] c b w h = skip_front pre c b w h
skip_pre pre (x ∷ word) c b w h = skip_front pre x (word ++ (c ∷ b)) w h

NoNul-concat : (word : Str) (c : ℕ) → NoNul word → c ≢ 0 → NoNul (word ++ (c ∷ []))
NoNul-concat [] c _ h = (h, tt)
NoNul-concat (x ∷ word) c (hx, nn) h = (hx, NoNul-concat word c nn h)

stored :
    (pre word : Str) (c y : ℕ) (ys : Block)
    → put_nul (pre ++ (word ++ (c ∷ y ∷ ys))) (length pre + length word + 1)
      ≡ ok ((pre ++ (word ++ (c ∷ []))) ++ (0 ∷ ys))
stored pre word c y ys =
    let regroup : pre ++ (word ++ (c ∷ y ∷ ys)) ≡ (pre ++ (word ++ (c ∷ []))) ++ (y ∷ ys) =
      simp append_assoc in
    rw (
      regroup,
      put_nul-concat (pre ++ (word ++ (c ∷ []))) y ys (length pre + length word + 1)
          (omega (arith, length-append pre (word ++ (c ∷ [])), length-append word (c ∷ []))),
    )

-- On a block that holds blanks, then a text that begins and ends with a character that is no blank,
-- then blanks and the terminator, `trim` never writes outside the block: it returns the place of
-- the text, and the string there is the text without the blanks around it.
pub trim_lem :
    (pre word : Str) (c : ℕ) (post : Str) (b : Block)
    → Blanks pre
    → StartsWord (word ++ (c ∷ []))
    → NoNul word
    → c ≢ 0
    → is_blank c ≡ false
    → Blanks post
    → (b' : Block) × (trim (pre ++ (word ++ (c ∷ (post ++ (0 ∷ b))))) ≡ ok (length pre, b'))
      × (c_string (drop (length pre) b') ≡ word ++ (c ∷ []))
unfolding trim
trim_lem pre word c post b w starts nn nz hc w' =
    let (y, ys, split) = behind post b in
    (
      (pre ++ (word ++ (c ∷ []))) ++ (0 ∷ ys),
      rw
          (
            skip_pre pre word c (post ++ (0 ∷ b)) w starts,
            drop-append,
            last_word-append word c post b (length pre) (length pre) nn nz hc w',
          )
          (rw (split, stored pre word c y ys)),
      rw (append_assoc, drop-append)
          (c_string-append (word ++ (c ∷ [])) ys (NoNul-concat word c nn nz)),
    )

put_nul-outside : (s : Str) → put_nul (s ++ (0 ∷ [])) (length s + 1) ≡ fault
unfolding put_nul
put_nul-outside s =
    rw (le→ltb (length s + 1) (length (s ++ (0 ∷ []))) (omega (arith, length-append s (0 ∷ []))))

-- A string of blanks alone has its result's terminator written one place behind its own: where the
-- string fills its block that is outside the block.
pub trim-Blanks :
    (s : Str)
    → Blanks s
    → (trim (s ++ (0 ∷ [])) ≡ fault)
      × ((x : ℕ) (b : Block) → trim (s ++ (0 ∷ x ∷ b)) ≡ ok (length s, s ++ (0 ∷ 0 ∷ b)))
unfolding trim
trim-Blanks s w = (
  rw (skip_front s 0 [] w refl, drop-append, put_nul-outside s),
  λ x b.
      let regroup : s ++ (0 ∷ x ∷ b) ≡ (s ++ (0 ∷ [])) ++ (x ∷ b) = simp append_assoc in
      rw
        (
          skip_front s 0 (x ∷ b) w refl,
          drop-append,
          regroup,
          put_nul-concat (s ++ (0 ∷ [])) x b (length s + 1)
              (omega (arith, length-append s (0 ∷ []))),
        )
        (simp append_assoc),
)
