-- ===== src/Utility/Convert.antt =====
-- The conversions of utility.c through the code pages of the system. The blocks are taken to be there.
use netdisk4tc.Base.{ℕ, ◌+◌, ◌≡◌, ap, refl, Option, none, some, length, Str}

-- `ctow` and `wtoc`. `page` stands for the conversion of a text by `MultiByteToWideChar` from the ANSI
-- code page, and by `WideCharToMultiByte` to the OEM code page.
unfoldable pub ctow : (Str → Str) → Option Str → Option Str
ctow page none = none
ctow page (some str) = some (page str)

unfoldable pub wtoc : (Str → Str) → Option Str → Option Str
wtoc page none = none
wtoc page (some str) = some (page str)

-- `MultiByteToWideChar` and `WideCharToMultiByte` with a code page, and the text that
-- `wsprintf(ret, "%s", buffer)` leaves in a block of a size, where `buffer` has wide characters.
pub record Pages : Type 0 where
  pub to_wide : ℕ → Str → Str
  pub to_narrow : ℕ → Str → Str
  pub print : ℕ → Str → Str

unfoldable pub convert : Pages → Option Str → ℕ → ℕ → Option Str
convert pages none src des = none
convert pages (some str) src des =
    let wide = pages.to_wide src str in
    let size = length (pages.to_narrow des wide) + 1 in some (pages.print size wide)

-- The text in the target's code page is thrown away: of it, `convert` uses the length only.
pub convert-length :
    (pages : Pages) (str : Option Str) (src des des' : ℕ)
    → ((wide : Str) → length (pages.to_narrow des wide) ≡ length (pages.to_narrow des' wide))
    → convert pages str src des ≡ convert pages str src des'
unfolding convert
convert-length pages none src des des' h = refl
convert-length pages (some str) src des des' h =
    ap (λ (n : ℕ). some (pages.print (n + 1) (pages.to_wide src str))) (h (pages.to_wide src str))
