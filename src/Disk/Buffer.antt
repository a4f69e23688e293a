-- ===== src/Disk/Buffer.antt =====
-- The loop of `ndisks_load` over the buffer of section names.
use netdisk4tc.Base.{
  ℕ, suc, ◌+◌, ◌≡◌, ◌≢◌, refl, ap, ◌∙◌, List, [], ◌∷◌, ◌++◌, length, drop, append_assoc, Str,
  eq_str_refl, eq_str_ne, Run, ok, ◌>>=◌, >>=-after, >>=-cong, drop-length_add, drop-add,
  Bool-cases, false, ◌==◌, inl, inr, arith,
}
use netdisk4tc.Utility.{Block, c_string}
use netdisk4tc.Utility.Trim.{NoNul, c_string-append}
use netdisk4tc.Disk.{Disks}
use netdisk4tc.Disk.Store.{Profile, load_section, load_step, load_loop, load_names}
use netdisk4tc.Disk.Saved.{names_text}

abbrev pub Names : List Str → Type 0
Names [] = Unit
Names (n ∷ ns) = (n ≢ []) × NoNul n × Names ns

ne_zero : (c : ℕ) → c ≢ 0 → (c == 0) ≡ false
ne_zero c h = ground arith

add_one : (n : ℕ) → n + 1 ≡ suc n
add_one n = omega arith

behind_name :
    (names : Block) (i : ℕ) (n cs : Str)
    → drop i names ≡ n ++ (0 ∷ cs)
    → drop (i + length n + 1) names ≡ cs
behind_name names i n cs at =
    drop-add i (length n + 1) (i + length n + 1) names (omega arith)
    ∙ ap (λ (b : Block). drop (length n + 1) b) at
    ∙ drop-length_add n (0 ∷ cs) (length n + 1) 1 refl

module _ {ℓ} {S : Type ℓ} (profile : Profile S) (file : Str) (s : S) where
  -- The sections one after another.
  abbrev pub load_all : List Str → Disks → Run Disks
  load_all [] disks = ok disks
  load_all (n ∷ ns) disks = do disks' ← load_section profile file s n disks; load_all ns disks'

  load_step-char :
      (names : Block) (j i c : ℕ) (disks : Disks)
      → c ≢ 0
      → load_step profile file s names j i c disks ≡ ok (j, disks)
  unfolding load_step
  load_step-char names j i c disks h = ground arith

  load_step-empty :
      (names : Block) (j i c : ℕ) (disks : Disks)
      → c_string (drop j names) ≡ []
      → load_step profile file s names j i c disks ≡ ok (j, disks)
  unfolding load_step
  load_step-empty names j i c disks h = elim (Bool-cases (c == 0)) [
    | inl zero ↦ rw (zero, h, eq_str_refl [])
    | inr other ↦ rw (other)
  ]

  load_step-name :
      (names : Block) (j i : ℕ) (n : Str) (disks : Disks)
      → c_string (drop j names) ≡ n
      → n ≢ []
      → load_step profile file s names j i 0 disks
        ≡ (do disks' ← load_section profile file s n disks; ok (i + 1, disks'))
  unfolding load_step
  load_step-name names j i n disks h ne = rw (h, eq_str_ne n [] ne)

  load_loop-chars :
      (names : Block) (j i : ℕ) (n cs : Str) (disks : Disks)
      → NoNul n
      → load_loop profile file s names j i (n ++ cs) disks
        ≡ load_loop profile file s names j (i + length n) cs disks
  unfolding load_loop
  load_loop-chars names j i [] cs disks _ =
      ap (λ (k : ℕ). load_loop profile file s names j k cs disks) (omega arith)
  load_loop-chars names j i (c ∷ n) cs disks (h, hs) =
      rw (load_step-char names j i c disks h, load_loop-chars names j (suc i) n cs disks hs)
        (ap (λ (k : ℕ). load_loop profile file s names j k cs disks) (omega arith))

  load_loop-tail :
      (names : Block) (j i : ℕ) (g : Block) (disks : Disks)
      → c_string (drop j names) ≡ []
      → load_loop profile file s names j i g disks ≡ ok disks
  unfolding load_loop
  load_loop-tail names j i [] disks h = refl
  load_loop-tail names j i (c ∷ g) disks h =
      rw (load_step-empty names j i c disks h) (load_loop-tail names j (suc i) g disks h)

  load_loop-name :
      (names : Block) (i : ℕ) (n cs : Str) (disks : Disks)
      → NoNul n
      → n ≢ []
      → drop i names ≡ n ++ (0 ∷ cs)
      → load_loop profile file s names i i (n ++ (0 ∷ cs)) disks ≡ (do
        disks' ← load_section profile file s n disks
        load_loop profile file s names (i + length n + 1) (i + length n + 1) cs disks')
  unfolding load_loop
  load_loop-name names i n cs disks h ne at = rw (
    load_loop-chars names i i n (0 ∷ cs) disks h,
    load_step-name names i (i + length n) n disks
        (ap (λ (b : Block). c_string b) at ∙ c_string-append n cs h) ne,
    >>=-after {B = ℕ × Disks} {C = Disks} (load_section profile file s n disks)
        (λ (d : Disks). (i + length n + 1, d)),
    add_one (i + length n),
  )

  load_loop-Names :
      (names : Block) (i : ℕ) (ns : List Str) (g : Block) (disks : Disks)
      → Names ns
      → drop i names ≡ names_text ns ++ (0 ∷ g)
      → load_loop profile file s names i i (names_text ns ++ (0 ∷ g)) disks ≡ load_all ns disks
  unfolding load_loop
  load_loop-Names names i [] g disks _ at =
      load_loop-tail names i i (0 ∷ g) disks
        (ap (λ (b : Block). c_string b) at ∙ c_string-append [] g tt)
  load_loop-Names names i (n ∷ ns) g disks (ne, h, hs) at =
      rw (append_assoc n (0 ∷ names_text ns) (0 ∷ g)) (
        load_loop-name names i n (names_text ns ++ (0 ∷ g)) disks h ne
          (at ∙ append_assoc n (0 ∷ names_text ns) (0 ∷ g))
        ∙ >>=-cong (load_section profile file s n disks) (λ (d : Disks).
          load_loop-Names names (i + length n + 1) ns g d hs (
            behind_name names i n (names_text ns ++ (0 ∷ g))
              (at ∙ append_assoc n (0 ∷ names_text ns) (0 ∷ g)))))

  -- What the loop makes of a buffer: the sections are loaded one after another.
  pub load_names-all :
      (ns : List Str) (g : Block) (disks : Disks)
      → Names ns
      → load_names profile file s (names_text ns ++ (0 ∷ g)) disks ≡ load_all ns disks
  load_names-all [] g disks _ = refl
  load_names-all ((c ∷ n) ∷ ns) g disks (ne, (h, hs), w) = rw (ne_zero c h) (
      load_loop-Names (names_text ((c ∷ n) ∷ ns) ++ (0 ∷ g)) 0 ((c ∷ n) ∷ ns) g disks
        (ne, (h, hs), w) refl)
  load_names-all ([] ∷ ns) g disks (ne, _, _) = absurd (ne refl)
