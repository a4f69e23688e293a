-- ===== src/Wrapper/Explorer/Session.antt =====
-- `wp_explorer` behind its queue of messages: the page sends a token to the window, and the window
-- closes itself and gives the token to the script.
use netdisk4tc.Base.{
  ℕ, zero, suc, ◌+◌, ◌<◌, ◌≡◌, ◌∙◌, sym, ap, true, Option, none, some, List, [], ◌∷◌, ◌++◌,
  append_assoc, arith, length, Str, codes,
}
use netdisk4tc.Ui.Auth.{auth_proc}
use netdisk4tc.Lua.{nil, string, table, Heap, lua_text, is_number}
use netdisk4tc.Wrapper.Explorer.{wp_explorer, Message, auth_token, other_message}
use netdisk4tc.Wrapper.Explorer.Messages.{
  WindowMessage, posted_size, posted_app, posted_token, posted_close, posted_other, Windows,
  IsWindows, dispatch, dispatched,
}
use netdisk4tc.Wrapper.Explorer.SignIn.{
  others, shown, wp_explorer_lem, message_loop-last, message_loop_quiet,
}

-- Neither the token nor a request to close: the window changes its size, or nothing happens.
abbrev pub Quiet : List WindowMessage → Type 0
Quiet [] = Unit
Quiet (posted_size _ _ ∷ ms) = Quiet ms
Quiet (posted_other ∷ ms) = Quiet ms
Quiet (_ ∷ ms) = ⊥

module _ {ℓ} {Q : Type ℓ} {windows : Windows Q} (is : IsWindows windows)
    (text_at : ℕ → Option Str) where
  abbrev Rounds : ℕ → Q → List Message → Type 0
  Rounds rounds q ms = dispatched windows text_at rounds q ≡ some ms

  -- Behind quiet messages the queue holds the rest.
  dispatched-Quiet :
      (ms rest : List WindowMessage) (tail : List Message) (need rounds : ℕ) (q : Q)
      → Quiet ms
      → is.contents q ≡ ms ++ rest
      → length ms + need < rounds
      → ((q' : Q) (left : ℕ) → is.contents q' ≡ rest → need < left → Rounds left q' tail)
      → Rounds rounds q (others (length ms) ++ tail)
  unfolding dispatched dispatch
  dispatched-Quiet [] rest tail need rounds q quiet holds enough next =
      next q rounds holds (omega arith)
  dispatched-Quiet (m ∷ ms) rest tail need zero q quiet holds enough next = absurd (omega arith)
  dispatched-Quiet (posted_size w h ∷ ms) rest tail need (suc rounds) q quiet holds enough next =
      let (q', e, holds') = is.get_first q (posted_size w h) (ms ++ rest) holds in
      rw (
        dispatched,
        e,
        dispatched-Quiet ms rest tail need rounds q' quiet holds' (omega arith) next,
      )
  dispatched-Quiet (posted_other ∷ ms) rest tail need (suc rounds) q quiet holds enough next =
      let (q', e, holds') = is.get_first q posted_other (ms ++ rest) holds in
      rw (
        dispatched,
        e,
        dispatched-Quiet ms rest tail need rounds q' quiet holds' (omega arith) next,
      )
  dispatched-Quiet (posted_app _ ∷ ms) rest tail need (suc rounds) q quiet holds enough next =
      absurd quiet
  dispatched-Quiet (posted_token _ ∷ ms) rest tail need (suc rounds) q quiet holds enough next =
      absurd quiet
  dispatched-Quiet (posted_close ∷ ms) rest tail need (suc rounds) q quiet holds enough next =
      absurd quiet

  ends :
      (rounds : ℕ) (q : Q)
      → is.contents q ≡ []
      → is.quits q ≡ true
      → 0 < rounds
      → Rounds rounds q []
  unfolding dispatched
  ends zero q empty quitting enough = absurd (omega arith)
  ends (suc rounds) q empty quitting enough = rw (dispatched, is.get_quit q empty quitting)

  -- A request to close, the last message, ends the loop.
  closes :
      (rounds : ℕ) (q : Q)
      → is.contents q ≡ posted_close ∷ []
      → 1 < rounds
      → Rounds rounds q (other_message ∷ [])
  unfolding dispatched dispatch auth_proc
  closes zero q holds enough = absurd (omega arith)
  closes (suc rounds) q holds enough =
      let (q', e, empty) = is.get_first q posted_close [] holds in
      rw (
        dispatched,
        e,
        ends rounds (windows.post_quit_message q') (is.contents_quit q' ∙ empty) (is.quits_quit q')
            (omega arith),
      )

  token_closes :
      (p rounds : ℕ) (q : Q)
      → is.contents q ≡ posted_token p ∷ posted_close ∷ []
      → 2 < rounds
      → Rounds rounds q (auth_token (text_at p) ∷ other_message ∷ [])
  unfolding dispatched dispatch auth_proc
  token_closes p zero q holds enough = absurd (omega arith)
  token_closes p (suc rounds) q holds enough =
      let (q', e, holds') = is.get_first q (posted_token p) (posted_close ∷ []) holds in
      rw (dispatched, e, closes rounds q' holds' (omega arith))

  -- `AuthProc` posts the token and the request to close behind what is in the queue.
  app_closes :
      (p : ℕ) (post : List WindowMessage) (rounds : ℕ) (q : Q)
      → Quiet post
      → is.contents q ≡ posted_app p ∷ post
      → length post + 3 < rounds
      → Rounds rounds q
          (other_message ∷ (others (length post) ++ (auth_token (text_at p) ∷ other_message ∷ [])))
  unfolding dispatched dispatch auth_proc
  app_closes p post zero q quiet holds enough = absurd (omega arith)
  app_closes p post (suc rounds) q quiet holds enough =
      let (q', e, holds') = is.get_first q (posted_app p) post holds in
      let q2 = windows.post_message posted_close (windows.post_message (posted_token p) q') in
      let posted : is.contents q2 ≡ post ++ (posted_token p ∷ posted_close ∷ []) =
        is.contents_post posted_close (windows.post_message (posted_token p) q')
        ∙ ap (λ ms. ms ++ (posted_close ∷ []))
            (is.contents_post (posted_token p) q' ∙ ap (λ ms. ms ++ (posted_token p ∷ [])) holds')
        ∙ append_assoc post (posted_token p ∷ []) (posted_close ∷ []) in
      rw (
        dispatched,
        e,
        dispatched-Quiet post (posted_token p ∷ posted_close ∷ [])
            (auth_token (text_at p) ∷ other_message ∷ []) 2 rounds q2 quiet posted (omega arith)
            λ q3 left holds3 some_left. token_closes p left q3 holds3 some_left,
      )

module _ {ℓ κ} {H : Type κ} {Q : Type ℓ} (api : Heap H) (ctow wtoc : Str → Str) (heap : H) (t : ℕ)
    {windows : Windows Q} (is : IsWindows windows) (text_at : ℕ → Option Str)
    (parent_width parent_height : ℕ) (title url : Str) where
  abbrev pub Fields : Type 0
  Fields =
      (is_number api (api.field heap t (codes "width")) ≡ true)
      × (is_number api (api.field heap t (codes "height")) ≡ true)
      × (lua_text api (api.field heap t (codes "title")) ≡ some title)
      × (lua_text api (api.field heap t (codes "url")) ≡ some url)

  -- The page sends the token at `p` to the window while other messages, none of which closes it, are
  -- before and behind: the loop over the messages ends after at most that many rounds and four, and
  -- the script gets the token.
  pub wp_explorer-auth_proc :
      (p rounds : ℕ) (token : Str) (pre post : List WindowMessage) (q : Q)
      → Fields
      → is.contents q ≡ pre ++ (posted_app p ∷ post)
      → Quiet pre
      → Quiet post
      → text_at p ≡ some token
      → length pre + (length post + 3) < rounds
      → (ms : List Message) × (dispatched windows text_at rounds q ≡ some ms)
        × (wp_explorer api ctow wtoc parent_width parent_height ms
              (record { stack = table t ∷ []; heap = heap })
            ≡ (
              shown api ctow wtoc heap t parent_width parent_height title url,
              some (string (wtoc token)),
            ))
  wp_explorer-auth_proc p rounds token pre post q (w, h, ti, u) holds quiet quiet' text enough =
      let front = others (length pre) ++ (other_message ∷ others (length post)) in
      let end = auth_token (text_at p) ∷ other_message ∷ [] in
      (
        front ++ end,
        dispatched-Quiet is text_at pre (posted_app p ∷ post)
              (other_message ∷ (others (length post) ++ end)) (length post + 3) rounds q quiet holds
              enough
              (λ q' left holds' some_left.
                app_closes is text_at p post left q' quiet' holds' some_left)
            ∙ ap some (
                sym
                  (append_assoc (others (length pre)) (other_message ∷ others (length post)) end)),
        wp_explorer_lem api ctow wtoc heap t parent_width parent_height (front ++ end) title url w h
              ti u
            ∙ rw (text, message_loop-last wtoc none front token 1),
      )

  -- The window is closed while no token has been sent: the loop ends too, and the script gets `nil`.
  pub wp_explorer-closed :
      (rounds : ℕ) (pre : List WindowMessage) (q : Q)
      → Fields
      → is.contents q ≡ pre ++ (posted_close ∷ [])
      → Quiet pre
      → length pre + 1 < rounds
      → (ms : List Message) × (dispatched windows text_at rounds q ≡ some ms)
        × (wp_explorer api ctow wtoc parent_width parent_height ms
              (record { stack = table t ∷ []; heap = heap })
            ≡ (shown api ctow wtoc heap t parent_width parent_height title url, some nil))
  wp_explorer-closed rounds pre q (w, h, ti, u) holds quiet enough =
      let ms = others (length pre) ++ (other_message ∷ []) in
      (
        ms,
        dispatched-Quiet is text_at pre (posted_close ∷ []) (other_message ∷ []) 1 rounds q quiet
            holds enough (λ q' left holds' some_left. closes is text_at left q' holds' some_left),
        wp_explorer_lem api ctow wtoc heap t parent_width parent_height ms title url w h ti u
            ∙ rw (message_loop_quiet wtoc (length pre)),
      )
