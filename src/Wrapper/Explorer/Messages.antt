-- ===== src/Wrapper/Explorer/Messages.antt =====
-- The messages behind the loop of `wp_explorer` in netdisk4tc/wrapper.c: each is dispatched to
-- `AuthProc` of netdisk4tc/ui.c, which posts further ones. The queue of the thread is Windows'.
use netdisk4tc.Base.{ℕ, zero, suc, ◌≡◌, Bool, true, Option, none, some, List, [], ◌∷◌, ◌++◌, Str}
use netdisk4tc.Ui.Auth.{
  AuthMessage, window_size, window_app, window_destroy, window_other, AuthAction, post_token,
  post_close, post_quit, default_proc, auth_proc,
}
use netdisk4tc.Wrapper.Explorer.{Message, auth_token, other_message}

-- A message in the queue. `posted_token` is `WM_USER_AUTHTOKENDATA`, with its `wParam`.
pub data WindowMessage : Type 0 where
  posted_size : ℕ → ℕ → WindowMessage
  posted_app posted_token : ℕ → WindowMessage
  posted_close posted_other : WindowMessage

-- What `GetMessage` gives: a message and the queue behind it, or `WM_QUIT`.
pub data Got {ℓ} (Q : Type ℓ) : Type ℓ where
  got : WindowMessage → Q → Got Q
  quit : Got Q

-- The functions of Windows on the queue of the thread.
pub record Windows {ℓ} (Q : Type ℓ) : Type ℓ where
  pub get_message : Q → Got Q
  pub post_message : WindowMessage → Q → Q
  pub post_quit_message : Q → Q

-- As documented: messages come in the order in which they were posted, and `WM_QUIT` when no other
-- is left.
pub record IsWindows {ℓ} {Q : Type ℓ} (windows : Windows Q) : Type ℓ where
  pub contents : Q → List WindowMessage
  pub quits : Q → Bool
  pub get_first :
      (q : Q) (m : WindowMessage) (ms : List WindowMessage)
      → contents q ≡ m ∷ ms
      → (q' : Q) × (windows.get_message q ≡ got m q') × (contents q' ≡ ms)
  pub get_quit : (q : Q) → contents q ≡ [] → quits q ≡ true → windows.get_message q ≡ quit
  pub contents_post :
      (m : WindowMessage) (q : Q) → contents (windows.post_message m q) ≡ contents q ++ (m ∷ [])
  pub contents_quit : (q : Q) → contents (windows.post_quit_message q) ≡ contents q
  pub quits_quit : (q : Q) → quits (windows.post_quit_message q) ≡ true

-- The message as `AuthProc` has it.
abbrev pub auth_message : WindowMessage → AuthMessage
auth_message (posted_size width height) = window_size width height
auth_message (posted_app p) = window_app p
auth_message (posted_token _) = window_other
auth_message posted_close = window_other
auth_message posted_other = window_other

-- The message as the loop sees it; `text_at` is what lies at an address.
abbrev pub heard : (ℕ → Option Str) → WindowMessage → Message
heard text_at (posted_token p) = auth_token (text_at p)
heard text_at _ = other_message

abbrev pub before : Message → Option (List Message) → Option (List Message)
before m none = none
before m (some ms) = some (m ∷ ms)

module _ {ℓ} {Q : Type ℓ} (windows : Windows Q) where
  -- The actions of `AuthProc` on the queue. `default` is what `DefWindowProc` does.
  abbrev pub act : (Q → Q) → List AuthAction → Q → Q
  act default [] q = q
  act default (post_token p ∷ actions) q =
      act default actions (windows.post_message (posted_token p) q)
  act default (post_close ∷ actions) q = act default actions (windows.post_message posted_close q)
  act default (post_quit ∷ actions) q = act default actions (windows.post_quit_message q)
  act default (default_proc ∷ actions) q = act default actions (default q)
  act default (_ ∷ actions) q = act default actions q

  -- `DefWindowProc`: for `WM_CLOSE` it destroys the window, which sends `WM_DESTROY`. That Windows
  -- then drops what is still in the queue for the window is left out.
  abbrev pub def_window_proc : WindowMessage → Q → Q
  def_window_proc posted_close q = act (λ q. q) (auth_proc true window_destroy).1 q
  def_window_proc _ q = q

  -- `DispatchMessage`.
  unfoldable pub dispatch : WindowMessage → Q → Q
  unfolding auth_proc
  dispatch m q = act (def_window_proc m) (auth_proc true (auth_message m)).1 q

  -- The messages of the loop until `WM_QUIT`; `none` where the rounds run out.
  unfoldable pub dispatched : (ℕ → Option Str) → ℕ → Q → Option (List Message)
  unfolding dispatch
  dispatched text_at zero q = none
  dispatched text_at (suc rounds) q = elim (windows.get_message q) [
    | quit ↦ some []
    | got m q' ↦ before (heard text_at m) (dispatched text_at rounds (dispatch m q'))
  ]
