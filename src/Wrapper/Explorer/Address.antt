-- ===== src/Wrapper/Explorer/Address.antt =====
-- `UI_TranslateUrl` of netdisk4tc/webbrowser/cwebpage.c, which netdisk4tc has changed: an address
-- `app:XXX` of the page in the window becomes a message with XXX. With it a page signs a user in.
use netdisk4tc.Base.{
  ℕ, ◌+◌, ◌<◌, ◌≡◌, ◌∙◌, ap, Bool, true, ◌&&◌, Option, none, some, List, [], ◌∷◌, ◌++◌, arith,
  if◌then◌else◌, leb, length, length-append, Str, codes,
}
use netdisk4tc.Crt.{wcsnicmp_equal}
use netdisk4tc.Lua.{string, table, Heap}
use netdisk4tc.Wrapper.Explorer.{wp_explorer, Message}
use netdisk4tc.Wrapper.Explorer.Messages.{WindowMessage, posted_app, Windows, IsWindows, dispatched}
use netdisk4tc.Wrapper.Explorer.SignIn.{shown}
use netdisk4tc.Wrapper.Explorer.Session.{Quiet, Fields, wp_explorer-auth_proc}

-- `AppUrl` and `Blank`.
abbrev pub app_url : Str
app_url = codes "app:"

abbrev pub blank_page : Str
blank_page = codes "about:blank"

-- `S_OK` and `S_FALSE`.
pub data UrlResult : Type 0 where
  s_ok s_false : UrlResult

-- The text `url` at the address `p`. A character has two bytes, so `pchURLIn + 4` is `p + 8`. `alloc`
-- says whether
-- `CoTaskMemAlloc` succeeds. The result, `*ppchURLOut` and the queue of the window.
unfoldable pub translate_url {ℓ} :
    {Q : Type ℓ} → Windows Q → Bool → ℕ → Str → Q → UrlResult × Option Str × Q
unfolding wcsnicmp_equal
translate_url windows alloc p url q =
    if leb 4 (length url) && wcsnicmp_equal url app_url 4
    then (if alloc
        then (s_ok, some blank_page, windows.post_message (posted_app (p + 8)) q)
        else (s_false, none, q))
    else (s_false, none, q)

module _ {ℓ κ} {H : Type κ} {Q : Type ℓ} (api : Heap H) (ctow wtoc : Str → Str) (heap : H) (t : ℕ)
    {windows : Windows Q} (is : IsWindows windows) (text_at : ℕ → Option Str)
    (parent_width parent_height : ℕ) (title url : Str) where
  -- The page goes to an address that is `app:`, in any case, and a token, while what is in the queue
  -- closes no window; and the token still lies there when its message comes. Then the browser shows an
  -- empty page, the loop over the messages ends, and the script gets the token.
  pub wp_explorer-translate_url :
      (p rounds : ℕ) (scheme token : Str) (pre : List WindowMessage) (q : Q)
      → Fields api ctow wtoc heap t is text_at parent_width parent_height title url
      → length scheme ≡ 4
      → wcsnicmp_equal (scheme ++ token) app_url 4 ≡ true
      → is.contents q ≡ pre
      → Quiet pre
      → text_at (p + 8) ≡ some token
      → length pre + 3 < rounds
      → (q' : Q) × (translate_url windows true p (scheme ++ token) q ≡ (s_ok, some blank_page, q'))
        × (ms : List Message) × (dispatched windows text_at rounds q' ≡ some ms)
        × (wp_explorer api ctow wtoc parent_width parent_height ms
              (record { stack = table t ∷ []; heap = heap })
            ≡ (
              shown api ctow wtoc heap t parent_width parent_height title url,
              some (string (wtoc token)),
            ))
  unfolding translate_url
  wp_explorer-translate_url p rounds scheme token pre q fields four is_app holds quiet text enough =
      let q' = windows.post_message (posted_app (p + 8)) q in
      let long : leb 4 (length (scheme ++ token)) ≡ true =
        ground (arith, length-append scheme token) in
      let (ms, loop, result) =
        wp_explorer-auth_proc api ctow wtoc heap t is text_at parent_width parent_height title url
          (p + 8) rounds token pre [] q' fields
          (is.contents_post (posted_app (p + 8)) q
            ∙ ap (λ ms. ms ++ (posted_app (p + 8) ∷ [])) holds)
          quiet tt text (omega arith) in
      (q', rw (translate_url, long, is_app), ms, loop, result)
