-- ===== src/Ui/Auth.antt =====
-- `AuthProc` of netdisk4tc/ui.c: the window in which a user signs in.
use netdisk4tc.Base.{ℕ, Bool, List, [], ◌∷◌, if◌then◌else◌}

-- The messages of the window, with the argument that is passed on.
pub data AuthMessage : Type 0 where
  window_size : ℕ → ℕ → AuthMessage
  window_create : AuthMessage
  window_app : ℕ → AuthMessage
  window_destroy : AuthMessage
  window_other : AuthMessage

-- What the procedure has done for it.
pub data AuthAction : Type 0 where
  resize_browser : ℕ → ℕ → AuthAction
  embed_browser unembed_browser : AuthAction
  post_token : ℕ → AuthAction
  post_close post_quit default_proc : AuthAction

-- The result: 0, -1, `TRUE`, or that of `DefWindowProc`.
pub data AuthResult : Type 0 where
  handled embed_failed destroyed by_default : AuthResult

-- `embeds` says whether `EmbedBrowserObject` succeeds.
unfoldable pub auth_proc : Bool → AuthMessage → AuthResult × List AuthAction
auth_proc embeds (window_size width height) = (handled, resize_browser width height ∷ [])
auth_proc embeds window_create = (if embeds then handled else embed_failed, embed_browser ∷ [])
auth_proc embeds (window_app token) =
    (by_default, post_token token ∷ post_close ∷ default_proc ∷ [])
auth_proc embeds window_destroy = (destroyed, unembed_browser ∷ post_quit ∷ [])
auth_proc embeds window_other = (by_default, default_proc ∷ [])
