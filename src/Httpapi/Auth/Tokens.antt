-- ===== src/Httpapi/Auth/Tokens.antt =====
-- Which tokens are valid after a change.
use kube_ops_agent.Base.{
  if◌then◌else◌, same, delete, lookup-insert, lookup-delete, String, ◌≡◌, refl, ap, ◌∙◌, ◌≢◌, Bool,
  false, not, ◌&&◌, ◌||◌, List, [], ◌∷◌, arith,
}
use kube_ops_agent.Httpapi.Auth.{TokenManager, is_valid, add_token, remove_token, rotate_token}

pub data Change : Type 0 where
  add remove : String → Change
  rotate : String → String → Change

unfoldable pub run : List Change → TokenManager → TokenManager
unfolding add_token remove_token rotate_token
run [] tm = tm
run (add t ∷ cs) tm = run cs (add_token t tm)
run (remove t ∷ cs) tm = run cs (remove_token t tm)
run (rotate old_token new_token ∷ cs) tm = run cs (rotate_token old_token new_token tm)

-- Whether a token that is not empty is valid after the changes, when it was before if `was`.
abbrev pub stays_valid : String → List Change → Bool → Bool
stays_valid token [] was = was
stays_valid token (add t ∷ cs) was = stays_valid token cs (same token t || was)
stays_valid token (remove t ∷ cs) was = stays_valid token cs (not (same token t) && was)
stays_valid token (rotate old_token new_token ∷ cs) was =
    stays_valid token cs (same token new_token || (not (same token old_token) && was))

is_valid-add_token :
    (token t : String) (tm : TokenManager)
    → token ≢ ""
    → is_valid token (add_token t tm) ≡ (same token t || is_valid token tm)
unfolding add_token is_valid
is_valid-add_token token t tm ne = ground (arith, lookup-insert t token tt tm.tokens)

is_valid-remove_token :
    (token t : String) (tm : TokenManager)
    → token ≢ ""
    → is_valid token (remove_token t tm) ≡ (not (same token t) && is_valid token tm)
unfolding remove_token is_valid
is_valid-remove_token token t tm ne = ground (arith, lookup-delete t token tm.tokens)

is_valid-rotate_token :
    (token o n : String) (tm : TokenManager)
    → token ≢ ""
    → is_valid token (rotate_token o n tm)
      ≡ (same token n || (not (same token o) && is_valid token tm))
unfolding rotate_token is_valid
is_valid-rotate_token token o n tm ne =
    ground (arith, lookup-delete o token tm.tokens, lookup-insert n token tt (delete o tm.tokens))

stays_valid-run :
    (cs : List Change) (token : String) (tm : TokenManager)
    → token ≢ ""
    → is_valid token (run cs tm) ≡ stays_valid token cs (is_valid token tm)
unfolding run
stays_valid-run [] token tm ne = refl
stays_valid-run (add t ∷ cs) token tm ne =
    stays_valid-run cs token (add_token t tm) ne
    ∙ ap (stays_valid token cs) (is_valid-add_token token t tm ne)
stays_valid-run (remove t ∷ cs) token tm ne =
    stays_valid-run cs token (remove_token t tm) ne
    ∙ ap (stays_valid token cs) (is_valid-remove_token token t tm ne)
stays_valid-run (rotate o n ∷ cs) token tm ne =
    stays_valid-run cs token (rotate_token o n tm) ne
    ∙ ap (stays_valid token cs) (is_valid-rotate_token token o n tm ne)

is_valid-empty : (token : String) (tm : TokenManager) → token ≡ "" → is_valid token tm ≡ false
unfolding is_valid
is_valid-empty token tm e = ground arith

-- After any sequence of additions, removals and rotations, a token that is not empty is valid
-- exactly if the last change that concerns it made it so, or if none does and it was, and the
-- empty token is never valid.
pub is_valid-run :
    (cs : List Change) (token : String) (tm : TokenManager)
    → is_valid token (run cs tm)
      ≡ (if same token "" then false else stays_valid token cs (is_valid token tm))
is_valid-run cs token tm =
    ground (arith, is_valid-empty token (run cs tm), stays_valid-run cs token tm)
