-- ===== src/Agent/Thinking/Commands.antt =====
-- internal/agent/thinking.go: the commands that the model asks for, and the guards before them.
-- `W` is the state of what is outside; `lower` and `trim_space` are the functions of package strings.
use Prim.Native.String.{◌++◌}
use kube_ops_agent.Base.{
  ◌==◌, if◌then◌else◌, same, length, join, contains, String, ◌≡◌, ◌≢◌, Bool, true, false, not, ◌||◌,
  Option, none, some, List, [], ◌∷◌,
}

-- `commandSpec`
pub record CommandSpec : Type 0 where
  pub kind : String
  pub engine : String
  pub args : List String
  pub cmd : String
  pub comment : String

-- `cmdResult`
pub record CmdResult : Type 0 where
  pub command : CommandSpec
  pub output : String
  pub error : String

-- A process: kubectl with arguments, or `bash -lc` with a text.
pub data Process : Type 0 where
  kubectl : List String → Process
  bash : String → Process

-- The combined output, and the text of the error, if there is one.
pub record Ran : Type 0 where
  pub output : String
  pub error : Option String

-- Whether `joined` has one of the four verbs in it.
unfoldable pub kubectl_allowed : List String → Bool
unfolding join
kubectl_allowed args =
    let joined = " " ++ (join " " args ++ " ") in
    contains joined " get "
    || (contains joined " describe " || (contains joined " logs" || contains joined " top "))

unfoldable pub shell_refused : String → Bool
shell_refused cmd =
    not (contains cmd "kubectl")
    || (contains cmd " apply "
        || (contains cmd " delete "
            || (contains cmd " patch "
                || (contains cmd " edit " || (contains cmd " create " || contains cmd " exec ")))))

module _ {W : Type 0} (lower trim_space : String → String) (exec : W → Process → W × Ran) where
  -- `exec.CommandContext` and `CombinedOutput`, entered into the result.
  unfoldable pub run_process : W → CommandSpec → Process → W × CmdResult
  run_process w c p =
      let (w', ran) = exec w p in
      (
        w',
        record {
          command = c;
          output = ran.output;
          error = elim ran.error [ none ↦ "" | some text ↦ text ];
        },
      )

  abbrev refusal : CommandSpec → String → CmdResult
  refusal c text = record { command = c; output = ""; error = text }

  -- The body of the loop for a command of the kind `command`.
  unfoldable pub run_command : W → CommandSpec → W × CmdResult
  unfolding run_process kubectl_allowed shell_refused
  run_command w c =
      if same (lower c.engine) "kubectl"
      then if length c.args == 0
        then (w, refusal c "kubectl: empty args")
        else if kubectl_allowed c.args
        then run_process w c (kubectl c.args)
        else (w, refusal c "kubectl: only get/describe/logs/top allowed")
      else if same (lower c.engine) "shell"
      then if same (trim_space c.cmd) ""
        then (w, refusal c "shell: empty cmd")
        else if shell_refused c.cmd
        then (w, refusal c "shell: only read-only kubectl commands allowed")
        else run_process w c (bash c.cmd)
      else (w, refusal c ("unsupported engine: " ++ c.engine))

  abbrev pub is_command : CommandSpec → Bool
  is_command c = same (lower c.kind) "command"

  -- The loop over the commands.
  unfoldable pub run_commands : W → List CommandSpec → W × List CmdResult
  unfolding run_command
  run_commands w [] = (w, [])
  run_commands w (c ∷ cs) = elim (is_command c) [
    | false ↦ run_commands w cs
    | true ↦ let (w₁, r) = run_command w c in let (w₂, rs) = run_commands w₁ cs in (w₂, r ∷ rs)
  ]

-- What the guards let through.
unfoldable pub IsPermitted : Process → Type 0
unfolding kubectl_allowed shell_refused
IsPermitted (kubectl args) = (length args ≢ 0) × (kubectl_allowed args ≡ true)
IsPermitted (bash cmd) = shell_refused cmd ≡ false
