-- ===== src/Tests/Minds.antt =====
-- internal/agent/thinking.go at concrete inputs.
use kube_ops_agent.Base.{
  str_dec, length, All, ℕ, String, ◌≡◌, refl, ◌↔◌, true, false, none, List, [], ◌∷◌,
}
use kube_ops_agent.Agent.Thinking.{
  ThinkingAgent, AgentResult, Retry, ok, answered, Outside, think_and_execute_with_retry, succeeded,
}
use kube_ops_agent.Agent.Thinking.Commands.{
  CommandSpec, Process, kubectl, kubectl_allowed, run_commands, IsPermitted,
}
use kube_ops_agent.Agent.Thinking.Safety.{think_and_execute_with_retry-keeps}
use kube_ops_agent.Agent.Thinking.Retries.{retry-error, looped}

abbrev same_text : String → String
same_text s = s

abbrev get_pods : CommandSpec
get_pods = record {
  kind = "command";
  engine = "kubectl";
  args = "get" ∷ "pods" ∷ [];
  cmd = "";
  comment = "";
}

abbrev delete_pod : CommandSpec
delete_pod = record {
  kind = "command";
  engine = "kubectl";
  args = "delete" ∷ "pod" ∷ "web" ∷ [];
  cmd = "";
  comment = "";
}

-- The outside keeps the processes that were run, and the model plans two commands.
abbrev outside : Outside (List Process) ℕ
outside = record {
  lower = same_text;
  trim_space = same_text;
  marshal_error = λ r. none;
  decode_analysis = λ s. ok (record { complex = false; summary = "" });
  decode_commands = λ s. ok (get_pods ∷ delete_pod ∷ []);
  json_error = λ s. none;
  ask = λ w r. (w, answered "text");
  exec = λ w p. (p ∷ w, record { output = "web"; error = none });
  clock = λ w. length w;
}

abbrev agent : ThinkingAgent
agent = record { name = "worker"; config = record { max_iterations = 2; constraints = [] } }

think_and_execute_with_retry-keeps_example :
    All IsPermitted (think_and_execute_with_retry outside agent [] "inspect" none).0
think_and_execute_with_retry-keeps_example =
    think_and_execute_with_retry-keeps outside agent (All IsPermitted) (λ w r h. h)
      (λ w p permitted h. (permitted, h)) [] "inspect" none tt

retry-error_example :
    ((think_and_execute_with_retry outside agent [] "inspect" none).2.error ≡ none) ↔ (
      (res : AgentResult) × (v : Retry ℕ) × ((looped outside agent [] "inspect" none).1
        ≡ succeeded res v))
retry-error_example = retry-error outside agent [] "inspect" none

-- A deletion passes the guard if one of its arguments is `get`.
delete_get_allowed : kubectl_allowed ("delete" ∷ "pod" ∷ "get" ∷ []) ≡ true
unfolding kubectl_allowed
delete_get_allowed = refl

delete_refused : kubectl_allowed ("delete" ∷ "pod" ∷ "web" ∷ []) ≡ false
unfolding kubectl_allowed
delete_refused = refl

-- Of the two commands only the first is run.
one_run :
    (run_commands same_text same_text outside.exec [] (get_pods ∷ delete_pod ∷ [])).0
    ≡ kubectl ("get" ∷ "pods" ∷ []) ∷ []
unfolding run_commands str_dec
one_run = refl
