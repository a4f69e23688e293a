-- ===== src/Crt/Token.antt =====
-- `strcspn` and `strtok` on texts with one delimiter in a known place.
use netdisk4tc.Base.{
  ℕ, suc, ◌≡◌, ◌≢◌, refl, ap, Bool, true, false, some, [], ◌∷◌, ◌++◌, arith, ◌==◌, Str, length,
}
use netdisk4tc.Crt.{strcspn, split_at, strtok}

-- No character of the text is in the set.
abbrev pub Without : (ℕ → Bool) → Str → Type 0
Without set [] = Unit
Without set (c ∷ s) = (set c ≡ false) × Without set s

pub strcspn-append :
    (set : ℕ → Bool) (s rest : Str) (c : ℕ)
    → Without set s
    → set c ≡ true
    → strcspn set (s ++ (c ∷ rest)) ≡ length s
unfolding strcspn
strcspn-append set [] rest c _ h = rw h
strcspn-append set (x ∷ s) rest c (hx, w) h = rw hx (ap suc (strcspn-append set s rest c w h))

pub strcspn-all : (set : ℕ → Bool) (s : Str) → Without set s → strcspn set s ≡ length s
unfolding strcspn
strcspn-all set [] _ = refl
strcspn-all set (x ∷ s) (hx, w) = rw hx (ap suc (strcspn-all set s w))

abbrev pub is : ℕ → ℕ → Bool
is d c = c == d

split_at-append :
    (d : ℕ) (s rest : Str) → Without (is d) s → split_at d (s ++ (d ∷ rest)) ≡ (s, rest)
unfolding split_at
split_at-append d [] rest _ = ground arith
split_at-append d (x ∷ s) rest (hx, w) =
    rw hx (ap (λ r. (x ∷ r.0, r.1)) (split_at-append d s rest w))

split_at-all : (d : ℕ) (s : Str) → Without (is d) s → split_at d s ≡ (s, [])
unfolding split_at
split_at-all d [] _ = refl
split_at-all d (x ∷ s) (hx, w) = rw hx (ap (λ r. (x ∷ r.0, r.1)) (split_at-all d s w))

-- A token that a delimiter follows.
pub strtok-append :
    (d : ℕ) (s rest : Str) → Without (is d) s → s ≢ [] → strtok d (s ++ (d ∷ rest)) ≡ (some s, rest)
unfolding strtok
strtok-append d [] rest _ ne = absurd (ne refl)
strtok-append d (x ∷ s) rest (hx, w) ne = rw (hx, split_at-append d (x ∷ s) rest (hx, w))

-- The last token.
pub strtok-all : (d : ℕ) (s : Str) → Without (is d) s → s ≢ [] → strtok d s ≡ (some s, [])
unfolding strtok
strtok-all d [] _ ne = absurd (ne refl)
strtok-all d (x ∷ s) (hx, w) ne = rw (hx, split_at-all d (x ∷ s) (hx, w))
