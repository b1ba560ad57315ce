-- ===== src/Mcp/Runtime/Cancelled.antt =====
-- What is left of the servers' processes when Initialize returns.
use kube_ops_agent.Base.{
  Option-cases, lookup, ℕ, String, ◌≡◌, ◌≢◌, inl, inr, Bool, false, some, List, [], ◌∷◌, arith,
}
use kube_ops_agent.Json.{Fields}
use kube_ops_agent.Mcp.Protocol.{call_params, Request, ToolResult, ServerConfig, ok, err}
use kube_ops_agent.Mcp.Client.{
  Outside, StdioClient, Client, returned, stdio, http, stdio_call, http_call, http_send,
  http_request, call, stdio_request, stdio_send,
}
use kube_ops_agent.Mcp.Runtime.{Runtime, Maps, initialize, initialize_all, call_tool}
use kube_ops_agent.Mcp.Runtime.Served.{Op, calls, run}

-- What os/exec says of processes: the end of the context ends those that were started under it, a
-- process that has ended answers nothing, and no message starts one.
pub record HasProcesses {W : Type 0} (out : Outside W) (lives : W → ℕ → Bool) : Type 0 where
  pub cancel_ends : (w : W) (p : ℕ) → lives (out.cancel w) p ≡ false
  pub no_answer :
      (w : W) (p : ℕ) (r : Request)
      → lives w p ≡ false
      → (e : String) × ((out.exchange w p r).1 ≡ err e)
  pub exchange_starts_none :
      (w : W) (p q : ℕ) (r : Request) → lives w q ≡ false → lives (out.exchange w p r).0 q ≡ false
  pub post_starts_none :
      (w : W) (url : String) (q : ℕ) (r : Request)
      → lives w q ≡ false
      → lives (out.post w url r).0 q ≡ false

-- Calls of tools, by their names and arguments.
abbrev pub call_ops : List (String × Fields) → List Op
call_ops [] = []
call_ops ((name, args) ∷ cs) = calls name args ∷ call_ops cs

module _ {W : Type 0} (out : Outside W) (lives : W → ℕ → Bool) (os : HasProcesses out lives) where
  -- No process lives.
  abbrev AllEnded : W → Type 0
  AllEnded w = (p : ℕ) → lives w p ≡ false

  stdio_call_dead :
      (w : W) (name : String) (args : Fields) (c : StdioClient) (res : ToolResult)
      → AllEnded w
      → (stdio_call out w name args c).2 ≢ returned (ok res)
  unfolding stdio_call stdio_send stdio_request
  stdio_call_dead w name args c res ended = elim (Option-cases c.cmd) [
    | inl e ↦ ground arith
    | inr (_, e) ↦ elim (Option-cases c.stdin) [
      | inl e' ↦ ground arith
      | inr (p, e') ↦
          let (text, bad) =
            os.no_answer w p (stdio_request "tools/call" (call_params name args) c).1 (ended p) in
          ground (arith, bad)
    ]
  ]

  call-AllEnded :
      (w : W) (name : String) (args : Fields) (c : Client)
      → AllEnded w
      → AllEnded (call out w name args c).0
  unfolding call stdio_call stdio_send stdio_request http_call http_send http_request
  call-AllEnded w name args (stdio c) ended q = elim (Option-cases c.cmd) [
    | inl e ↦ ground (arith, e, ended q)
    | inr (_, e) ↦ elim (Option-cases c.stdin) [
      | inl e' ↦ ground (arith, e, e', ended q)
      | inr (p, e') ↦ ground (
        arith,
        e,
        e',
        os.exchange_starts_none w p q (stdio_request "tools/call" (call_params name args) c).1
            (ended q),
      )
    ]
  ]
  call-AllEnded w name args (http c) ended q =
      os.post_starts_none w c.url q (http_request "tools/call" (call_params name args) c).1
        (ended q)

  call_tool-AllEnded :
      (w : W) (name : String) (args : Fields) (r : Runtime)
      → AllEnded w
      → AllEnded (call_tool out w name args r).0
  unfolding call_tool
  call_tool-AllEnded w name args r ended q = elim (Option-cases r.maps) [
    | inl e ↦ rw (e, call_tool) (ended q)
    | inr (m, e) ↦ elim (Option-cases (lookup name m.server)) [
      | inl e₁ ↦ rw (e, call_tool, e₁) (ended q)
      | inr (server, e₁) ↦ elim (Option-cases (lookup server m.clients)) [
        | inl e₂ ↦ rw (e, call_tool, e₁, e₂) (ended q)
        | inr (c, e₂) ↦ rw (e, call_tool, e₁, e₂) (call-AllEnded w name args c ended q)
      ]
    ]
  ]

  run-AllEnded :
      (w : W) (cs : List (String × Fields)) (r : Runtime)
      → AllEnded w
      → AllEnded (run out w (call_ops cs) r).0
  unfolding run
  run-AllEnded w [] r ended = ended
  run-AllEnded w ((name, args) ∷ cs) r ended =
      let next = call_tool out w name args r in
      run-AllEnded next.0 cs next.1 (call_tool-AllEnded w name args r ended)

  -- If the end of a context ends the processes that were started under it, an ended process answers nothing and no message
  -- starts one: after Initialize, and after any calls of tools since, no call of a tool of a stdio server succeeds.
  pub initialize_cancels :
      (w : W) (cfgs : List ServerConfig) (r r' r'' : Runtime) (cs : List (String × Fields))
      (m : Maps) (name server : String) (c : StdioClient) (args : Fields) (res : ToolResult)
      → (initialize out w cfgs r).1 ≡ some r'
      → (run out (initialize out w cfgs r).0 (call_ops cs) r').1 ≡ some r''
      → r''.maps ≡ some m
      → lookup name m.server ≡ some server
      → lookup server m.clients ≡ some (stdio c)
      → (call_tool out (run out (initialize out w cfgs r).0 (call_ops cs) r').0 name args r'').2
        ≢ returned (ok res)
  unfolding initialize call_tool call
  initialize_cancels w cfgs r r' r'' cs m name server c args res h h' e₁ e₂ e₃ =
      let w' = (run out (initialize out w cfgs r).0 (call_ops cs) r').0 in
      let ended : AllEnded w' =
        run-AllEnded (initialize out w cfgs r).0 cs r'
          (os.cancel_ends (initialize_all out w cfgs r).0) in
      rw (e₁, call_tool, e₂, e₃) (stdio_call_dead w' name args c res ended)
