-- ===== src/Agent/Thinking/Safety.antt =====
-- What an agent does to the outside: it asks the model, and runs what the guards let through.
use kube_ops_agent.Base.{
  Bool-cases, Option-cases, keep, ℕ, zero, suc, ◌+◌, String, ◌≡◌, refl, inl, inr, none, some, List,
  [], ◌∷◌, map, arith,
}
use kube_ops_agent.Agent.Thinking.{
  ThinkingAgent, Context, Request, analysis, planning, commands, report, text, Result-cases,
  Ended-cases, Result, Retry, Outside, asked, analyze, create_plan, make_report, execute_direct,
  concluded, think_and_execute, good, reflected, rounds, max_iter, last_attempt,
  think_and_execute_with_retry,
}
use kube_ops_agent.Agent.Thinking.Commands.{
  CommandSpec, CmdResult, Process, kubectl, bash, Ran, kubectl_allowed, shell_refused, run_process,
  run_command, is_command, run_commands, IsPermitted,
}

-- `P` holds after the processes of the guards, if it holds before.
module _ {W : Type 0} (lower trim_space : String → String) (exec : W → Process → W × Ran)
    (P : W → Type 0) (kept : (w : W) (p : Process) → IsPermitted p → P w → P (exec w p).0) where
  run_command-keeps : (w : W) (c : CommandSpec) → P w → P (run_command lower trim_space exec w c).0
  unfolding run_command run_process IsPermitted kubectl_allowed shell_refused
  run_command-keeps w c h = ground (arith, kept w (kubectl c.args), kept w (bash c.cmd))

  -- Whatever the commands are, a property of the outside that every process with permitted
  -- arguments keeps is kept by the loop over the commands.
  pub run_commands-keeps :
      (w : W) (cs : List CommandSpec) → P w → P (run_commands lower trim_space exec w cs).0
  unfolding run_commands
  run_commands-keeps w [] h = h
  run_commands-keeps w (c ∷ cs) h =
      let one = run_command-keeps w c h in
      let rest = run_commands-keeps (run_command lower trim_space exec w c).0 cs one in
      elim (Bool-cases (is_command lower trim_space exec c)) [
        | inl e ↦ rw (e, run_commands) rest
        | inr e ↦ rw (e, run_commands) (run_commands-keeps w cs h)
      ]

run_command-command :
    {W : Type 0} (lower trim_space : String → String) (exec : W → Process → W × Ran) (w : W)
    (c : CommandSpec)
    → (run_command lower trim_space exec w c).1.command ≡ c
unfolding run_command run_process kubectl_allowed shell_refused
run_command-command lower trim_space exec w c = ground arith

-- The results are those of the commands of the kind `command`, in the order of the plan, one for
-- each, whether it was run or refused.
pub run_commands-commands :
    {W : Type 0} (lower trim_space : String → String) (exec : W → Process → W × Ran) (w : W)
    (cs : List CommandSpec)
    → map (λ r. r.command) (run_commands lower trim_space exec w cs).1
      ≡ keep (is_command lower trim_space exec) cs
unfolding run_commands
run_commands-commands lower trim_space exec w [] = refl
run_commands-commands lower trim_space exec w (c ∷ cs) =
    let w' = (run_command lower trim_space exec w c).0 in
    elim (Bool-cases (is_command lower trim_space exec c)) [
      | inl e ↦ ground (
        arith,
        e,
        run_command-command lower trim_space exec w c,
        run_commands-commands lower trim_space exec w' cs,
      )
      | inr e ↦ ground (arith, e, run_commands-commands lower trim_space exec w cs)
    ]

module _ {W V : Type 0} (out : Outside W V) (t : ThinkingAgent) (P : W → Type 0)
    (asks : (w : W) (r : Request V) → P w → P (out.ask w r).0)
    (runs : (w : W) (p : Process) → IsPermitted p → P w → P (out.exec w p).0) where
  make_report-keeps :
      (w : W) (task : String) (ctx : Context V) (cs : List CommandSpec) (rs : List CmdResult)
      → P w
      → P (make_report out t w task ctx cs rs).0
  unfolding make_report
  make_report-keeps w task ctx cs rs h = ground (arith, asks w (report task ctx cs rs) h)

  asked-keeps :
      (on_nil on_empty : String) (w : W) (r : Request V)
      → P w
      → P (asked out t on_nil on_empty w r).0
  unfolding asked
  asked-keeps on_nil on_empty w r h = asks w r h

  execute_direct-keeps :
      (w : W) (task : String) (ctx : Context V) → P w → P (execute_direct out t w task ctx).0
  unfolding execute_direct
  execute_direct-keeps w task ctx h =
      let first =
        asked out t "model returned nil response" "empty command plan from model" w
          (commands t.name task ctx t.config.constraints) in
      let h₁ =
        asked-keeps "model returned nil response" "empty command plan from model" w
          (commands t.name task ctx t.config.constraints) h in
      elim (Result-cases first.1) [
        | inr (e, bad) ↦ rw (bad, execute_direct) h₁
        | inl (s, good_text) ↦ elim (Result-cases (out.decode_commands (out.trim_space s))) [
          | inr (e, bad) ↦ rw (good_text, execute_direct, bad) h₁
          | inl (cs, decoded) ↦
              let ran = run_commands out.lower out.trim_space out.exec first.0 cs in
              let h₂ = run_commands-keeps out.lower out.trim_space out.exec P runs first.0 cs h₁ in
              rw (good_text, execute_direct, decoded) (make_report-keeps ran.0 task ctx cs ran.1 h₂)
        ]
      ]

  analyze-keeps : (w : W) (task : String) (ctx : Context V) → P w → P (analyze out t w task ctx).0
  unfolding analyze asked
  analyze-keeps w task ctx h = ground (arith, asks w (analysis task ctx) h)

  create_plan-keeps :
      (w : W) (task : String) (ctx : Context V) → P w → P (create_plan out t w task ctx).0
  unfolding create_plan asked
  create_plan-keeps w task ctx h = ground (arith, asks w (planning task ctx) h)

  concluded-keeps :
      (start : ℕ) (raw : String) (w : W) (r : Result String)
      → P w
      → P (concluded out t start raw (w, r)).0
  unfolding concluded
  concluded-keeps start raw w r h = h

  think_and_execute-keeps :
      (w : W) (task : String) (ctx : Context V) → P w → P (think_and_execute out t w task ctx).0
  unfolding think_and_execute concluded
  think_and_execute-keeps w task ctx h =
      let a = analyze out t w task ctx in
      let p = create_plan out t a.0 task ctx in
      let h₁ = analyze-keeps w task ctx h in
      let h₂ = create_plan-keeps a.0 task ctx h₁ in
      elim (Result-cases a.1) [
        | inr (e, bad) ↦ rw (bad, think_and_execute) h₁
        | inl (found, analysed) ↦ elim (Bool-cases found.complex) [
          | inr simple ↦
              rw (analysed, think_and_execute, simple) (execute_direct-keeps a.0 task ctx h₁)
          | inl complex ↦ elim (Result-cases p.1) [
            | inr (e, bad) ↦ rw (analysed, think_and_execute, complex, bad) h₂
            | inl (plan, planned) ↦
                rw (analysed, think_and_execute, complex, planned)
                  (execute_direct-keeps p.0 task
                    (some (("analysis", text found.summary) ∷ ("plan", text plan) ∷ [])) h₂)
          ]
        ]
      ]

  rounds-keeps :
      (left i : ℕ) (w : W) (task : String) (v : Retry V) → P w → P (rounds out t left i w task v).0
  unfolding rounds
  rounds-keeps zero i w task v h = h
  rounds-keeps (suc left) i w task v h =
      let first = think_and_execute out t w task v.context in
      let h₁ = think_and_execute-keeps w task v.context h in
      elim (Option-cases (good out t first.1)) [
        | inl failed ↦
            rw (failed, rounds)
              (rounds-keeps left (i + 1) first.0 task (reflected out t i first.1 v) h₁)
        | inr (res, won) ↦ rw (won, rounds) h₁
      ]

  -- A property of the outside that the calls of the model keep, and every process whose arguments
  -- pass the guards, is kept by a whole run with its retries, whatever the model answers.
  pub think_and_execute_with_retry-keeps :
      (w : W) (task : String) (ctx : Context V)
      → P w
      → P (think_and_execute_with_retry out t w task ctx).0
  unfolding think_and_execute_with_retry last_attempt
  think_and_execute_with_retry-keeps w task ctx h =
      let start : Retry V = record { context = ctx; last_err = none; last_plan = "" } in
      let looped = rounds out t (max_iter out t) 0 w task start in
      let h₁ = rounds-keeps (max_iter out t) 0 w task start h in
      elim (Ended-cases looped.1) [
        | inl (res, v, e) ↦ rw (e, think_and_execute_with_retry) h₁
        | inr (v, e) ↦
            rw (e, think_and_execute_with_retry)
              (think_and_execute-keeps looped.0 task v.context h₁)
      ]
