-- ===== src/Config/Settings/Environment.antt =====
-- `.env` files and the environment.
use Prim.Native.String.{len, slice}
use text.Mathlib.Text.{find?}
use mathlib.Core.Path.{subst}
use kube_ops_agent.Base.{
  if◌then◌else◌, same, Bool-cases, Option-cases, insert, lookup-insert, ℕ, ◌+◌, String, ◌≡◌, refl,
  sym, ◌∙◌, ◌≢◌, inl, inr, true, Option, none, some, List, [], ◌∷◌, arith,
}
use kube_ops_agent.Config.Settings.{
  Settings, File, missing, data_with, getenv, set_defaults, load_line, load_lines, load_env_file,
  override_from_env, load_settings,
}

module _ (trim_space trim_quotes : String → String) where
  getenv-insert :
      (k j v : String) (env : List (String × String))
      → getenv j (insert k v env) ≡ (if same j k then v else getenv j env)
  getenv-insert k j v env = ground (arith, lookup-insert k j v env)

  load_line-getenv :
      (k raw : String) (env : List (String × String))
      → getenv k env ≢ ""
      → getenv k (load_line trim_space trim_quotes raw env) ≡ getenv k env
  unfolding load_line
  load_line-getenv k raw env h =
      let line : String = trim_space raw in
      elim (Option-cases (find? line "=")) [
        | inl e ↦ ground (arith, e)
        | inr (idx, e) ↦
            let key : String = trim_space (slice line 0 idx) in
            let val : String = trim_space (slice line (idx + 1) (len line)) in
            ground (arith, e, lookup-insert key k (trim_quotes val) env)
      ]

  load_lines-getenv :
      (k : String) (ls : List String) (env : List (String × String))
      → getenv k env ≢ ""
      → getenv k (load_lines trim_space trim_quotes ls env) ≡ getenv k env
  unfolding load_lines
  load_lines-getenv k [] env h = refl
  load_lines-getenv k (l ∷ ls) env h =
      let same_line = load_line-getenv k l env h in
      load_lines-getenv k ls (load_line trim_space trim_quotes l env) (λ e. h (sym same_line ∙ e))
      ∙ same_line

  -- A `.env` file never changes a variable that the environment has with a value that is not empty.
  pub load_env_file-getenv :
      (k : String) (file : Option (List String)) (env : List (String × String))
      → getenv k env ≢ ""
      → getenv k (load_env_file trim_space trim_quotes file env) ≡ getenv k env
  unfolding load_env_file
  load_env_file-getenv k none env h = refl
  load_env_file-getenv k (some ls) env h = load_lines-getenv k ls env h

abbrev HasToken : String → Option Settings → Type 0
HasToken v none = Unit
HasToken v (some s) = (s.security.enable_auth ≡ true) × (s.security.api_token ≡ v)

module _ (trim_space trim_quotes : String → String) (atoi : String → Option ℕ) where
  override_from_env-HasToken :
      (env : List (String × String)) (s : Settings)
      → getenv "K8SOPS_API_TOKEN" env ≢ ""
      → HasToken (getenv "K8SOPS_API_TOKEN" env) (some (override_from_env atoi env s))
  unfolding override_from_env
  override_from_env-HasToken env s h = elim (Bool-cases (same (getenv "K8SOPS_API_TOKEN" env) "")) [
    | inl e ↦ ground (arith, e, h)
    | inr e ↦ rw (e, override_from_env) (refl, refl)
  ]

  -- What the settings have after a variable is carried through a file.
  loaded-HasToken :
      (file : Option (List String)) (env : List (String × String)) (s : Settings)
      → getenv "K8SOPS_API_TOKEN" env ≢ ""
      → (getenv "K8SOPS_API_TOKEN" (load_env_file trim_space trim_quotes file env) ≢ "")
        × HasToken
            (getenv "K8SOPS_API_TOKEN" env)
            (some (override_from_env atoi (load_env_file trim_space trim_quotes file env) s))
  loaded-HasToken file env s h =
      let e = load_env_file trim_space trim_quotes file env in
      let kept = load_env_file-getenv trim_space trim_quotes "K8SOPS_API_TOKEN" file env h in
      let still : getenv "K8SOPS_API_TOKEN" e ≢ "" = λ p. h (sym kept ∙ p) in
      (
        still,
        subst (λ v. HasToken v (some (override_from_env atoi e s))) kept
            (override_from_env-HasToken e s still),
      )

  loaded_twice-HasToken :
      (here beside : Option (List String)) (env : List (String × String)) (s : Settings)
      → getenv "K8SOPS_API_TOKEN" env ≢ ""
      → HasToken (getenv "K8SOPS_API_TOKEN" env) (
          some (
            override_from_env atoi
              (load_env_file trim_space trim_quotes beside
                (load_env_file trim_space trim_quotes here env))
              s))
  loaded_twice-HasToken here beside env s h =
      let e = load_env_file trim_space trim_quotes here env in
      let kept = load_env_file-getenv trim_space trim_quotes "K8SOPS_API_TOKEN" here env h in
      let still = (loaded-HasToken here env s h).0 in
      subst
        (λ v.
          HasToken v
            (some (override_from_env atoi (load_env_file trim_space trim_quotes beside e) s)))
        kept (loaded-HasToken beside e s still).1

  load_settings-HasToken :
      (config_path : String) (here beside : Option (List String)) (file : File)
      (env : List (String × String))
      → getenv "K8SOPS_API_TOKEN" env ≢ ""
      → HasToken
          (getenv "K8SOPS_API_TOKEN" env)
          (load_settings trim_space trim_quotes atoi config_path here beside file env).0
  unfolding load_settings
  load_settings-HasToken config_path here beside missing env h =
      elim (Bool-cases (same config_path "")) [
        | inl e ↦ rw (e, load_settings) (loaded-HasToken here env set_defaults h).1
        | inr e ↦ rw (e, load_settings) (loaded_twice-HasToken here beside env set_defaults h)
      ]
  load_settings-HasToken config_path here beside (data_with unmarshal) env h =
      elim (Bool-cases (same config_path "")) [
        | inl e ↦ rw (e, load_settings) (loaded-HasToken here env set_defaults h).1
        | inr e ↦ elim (Option-cases (unmarshal set_defaults)) [
          | inl bad ↦ rw (e, load_settings, bad) tt
          | inr (x, read) ↦ rw (e, load_settings, read) (loaded_twice-HasToken here beside env x h)
        ]
      ]

  -- Where the environment has a value for the API token, the settings that load ask for
  -- authentication with that token, whatever the files say.
  pub load_settings-token :
      (config_path : String) (here beside : Option (List String)) (file : File)
      (env : List (String × String)) (s : Settings)
      → getenv "K8SOPS_API_TOKEN" env ≢ ""
      → (load_settings trim_space trim_quotes atoi config_path here beside file env).0 ≡ some s
      → (s.security.enable_auth ≡ true) × (s.security.api_token ≡ getenv "K8SOPS_API_TOKEN" env)
  load_settings-token config_path here beside file env s h e =
      subst (HasToken (getenv "K8SOPS_API_TOKEN" env)) e
        (load_settings-HasToken config_path here beside file env h)
