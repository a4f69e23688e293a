-- ===== src/Dictionary/Walk.antt =====
-- `dict_traverse` as a fold that an enumerator may end.
use netdisk4tc.Base.{
  ℕ, ◌≡◌, refl, ◌∙◌, Bool, true, false, Option, List, [], ◌∷◌, ◌++◌, Str, Run, ok,
}
use netdisk4tc.Dictionary.{DictEntry, Dictionary, traverse_loop, dict_traverse}

module _ {ℓ} {V D : Type 0} {S : Type ℓ}
    (enumerator : Str → Option V → ℕ → S → Run (Bool × S)) where
  -- The enumerator takes these entries from `s` to `s'` and goes on behind each.
  pub data Walks : List (DictEntry V D) → S → S → Type ℓ where
    stop : {s : S} → Walks [] s s
    step :
        {e : DictEntry V D} {es : List (DictEntry V D)} {s s' t : S}
        → enumerator e.key e.value e.size s ≡ ok (true, s')
        → Walks es s' t
        → Walks (e ∷ es) s t

  pub traverse_loop-append :
      (es fs : List (DictEntry V D)) {s t : S}
      → Walks es s t
      → traverse_loop (es ++ fs) enumerator s ≡ traverse_loop fs enumerator t
  unfolding traverse_loop
  traverse_loop-append [] fs stop = refl
  traverse_loop-append (e ∷ es) fs (step h w) = rw h (traverse_loop-append es fs w)

  traverse_loop-Walks :
      (es : List (DictEntry V D)) {s t : S} → Walks es s t → traverse_loop es enumerator s ≡ ok t
  unfolding traverse_loop
  traverse_loop-Walks [] stop = refl
  traverse_loop-Walks (e ∷ es) (step h w) = rw h (traverse_loop-Walks es w)

  -- An enumerator that goes on at every entry sees all of them, in order.
  pub dict_traverse-Walks :
      (d : Dictionary V D) {s t : S} → Walks d.first s t → dict_traverse d enumerator s ≡ ok t
  unfolding dict_traverse
  dict_traverse-Walks d w = traverse_loop-Walks d.first w

  -- One that ends the walk at an entry sees the entries up to it and no other.
  pub dict_traverse_stops :
      (d : Dictionary V D) (es fs : List (DictEntry V D)) (e : DictEntry V D) {s t u : S}
      → d.first ≡ es ++ (e ∷ fs)
      → Walks es s t
      → enumerator e.key e.value e.size t ≡ ok (false, u)
      → dict_traverse d enumerator s ≡ ok u
  unfolding dict_traverse
  dict_traverse_stops d es fs e split w h =
      rw (split) (traverse_loop-append es (e ∷ fs) w ∙ rw (traverse_loop, h))
