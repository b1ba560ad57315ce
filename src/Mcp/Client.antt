-- ===== src/Mcp/Client.antt =====
-- internal/mcp/client.go: StdioClient, HTTPClient and the interface Client. `W` is the state of what
-- is outside. A process is a number; a process is started under a context, and `cancel` ends the
-- context. The writing, the reading and the decoding of a message are one exchange.
use kube_ops_agent.Base.{
  ltb, if◌then◌else◌, same, length, ℕ, ◌+◌, String, Option, none, some, List, [], ◌++◌,
}
use kube_ops_agent.Json.{Json, Fields}
use kube_ops_agent.Mcp.Protocol.{
  Tool, ToolResult, ServerConfig, Params, no_params, initialize_params, call_params, Request,
  Result, ok, err, answer_of, tools_of, tool_result,
}

-- What os/exec, the pipes and net/http do.
pub record Outside (W : Type 0) : Type 0 where
  pub start : W → ServerConfig → W × Result ℕ
  pub kill : W → ℕ → W
  pub cancel : W → W
  pub exchange : W → ℕ → Request → W × Result Fields
  pub tell : W → ℕ → Request → W
  pub post : W → String → Request → W × Result Fields
  pub post_notice : W → String → Request → W
  pub show : Option Json → String

-- `cmd` is the command, if there is one, and its process, if that was started; `stdin` is the process
-- that both pipes lead to.
pub record StdioClient : Type 0 where
  pub config : ServerConfig
  pub cmd : Option (Option ℕ)
  pub stdin : Option ℕ
  pub id : ℕ
  pub tools : List Tool

pub record HttpClient : Type 0 where
  pub config : ServerConfig
  pub url : String
  pub id : ℕ
  pub tools : List Tool

-- What a call comes to: a nil pointer is dereferenced, or it returns.
pub data Called : Type 0 where
  panicked : Called
  returned : Result ToolResult → Called

abbrev initialized_notice : Request
initialized_notice = record { method = "notifications/initialized"; id = none; params = no_params }

unfoldable pub new_stdio_client : ServerConfig → StdioClient
new_stdio_client cfg = record { config = cfg; cmd = none; stdin = none; id = 0; tools = [] }

unfoldable pub new_http_client : ServerConfig → Option HttpClient
new_http_client cfg =
    if same cfg.url ""
    then none
    else some (record { config = cfg; url = cfg.url; id = 0; tools = [] })

unfoldable pub stdio_request : String → Params → StdioClient → StdioClient × Request
stdio_request method params c =
    (record c { id = c.id + 1 }, record { method = method; id = some (c.id + 1); params = params })

unfoldable pub http_request : String → Params → HttpClient → HttpClient × Request
http_request method params c =
    (record c { id = c.id + 1 }, record { method = method; id = some (c.id + 1); params = params })

module _ {W : Type 0} (out : Outside W) where
  unfoldable pub stdio_send : W → ℕ → Request → W × Result (Option Json)
  unfolding answer_of
  stdio_send w p req =
      let (w', r) = out.exchange w p req in
      (w', elim r [ err e ↦ err e | ok resp ↦ answer_of out.show resp ])

  -- The handshake with the process p, which was started.
  unfoldable pub stdio_handshake : W → ℕ → StdioClient → W × StdioClient × Option String
  unfolding stdio_request stdio_send tools_of
  stdio_handshake w p c =
      let (c₁, init) = stdio_request "initialize" initialize_params c in
      let (w₁, r) = stdio_send w p init in
      elim r [
        | err e ↦ (out.kill w₁ p, c₁, some e)
        | ok _ ↦
            let w₂ = out.tell w₁ p initialized_notice in
            let (c₂, list) = stdio_request "tools/list" no_params c₁ in
            let (w₃, l) = stdio_send w₂ p list in
            elim l [
              | err e ↦ (w₃, c₂, some e)
              | ok res ↦ (w₃, record c₂ { tools = c₂.tools ++ tools_of c₂.config.name res }, none)
            ]
      ]

  -- The client that is left, and the error.
  unfoldable pub stdio_connect : W → StdioClient → W × StdioClient × Option String
  unfolding stdio_handshake
  stdio_connect w c = elim c.cmd [
    | some _ ↦ (w, c, none)
    | none ↦
        let (w₁, s) = out.start w c.config in
        elim s [
          | err e ↦ (w₁, record c { cmd = some none }, some e)
          | ok p ↦ stdio_handshake w₁ p (record c { cmd = some (some p); stdin = some p })
        ]
  ]

  unfoldable pub stdio_call : W → String → Fields → StdioClient → W × StdioClient × Called
  unfolding stdio_request stdio_send tool_result
  stdio_call w name args c = elim c.cmd [
    | none ↦ (w, c, returned (err "not connected"))
    | some _ ↦
        let (c₁, req) = stdio_request "tools/call" (call_params name args) c in
        elim c.stdin [
          | none ↦ (w, c₁, panicked)
          | some p ↦
              let (w₁, r) = stdio_send w p req in
              (w₁, c₁, returned (elim r [ err e ↦ err e | ok res ↦ tool_result res ]))
        ]
  ]

  unfoldable pub stdio_close : W → StdioClient → W × StdioClient
  stdio_close w c = elim c.cmd [
    | none ↦ (w, c)
    | some none ↦ (w, c)
    | some (some p) ↦ (out.kill w p, record c { cmd = none })
  ]

  unfoldable pub http_send : W → HttpClient → Request → W × Result (Option Json)
  unfolding answer_of
  http_send w c req =
      let (w', r) = out.post w c.url req in
      (w', elim r [ err e ↦ err e | ok resp ↦ answer_of out.show resp ])

  unfoldable pub http_connect : W → HttpClient → W × HttpClient × Option String
  unfolding http_request http_send tools_of
  http_connect w c =
      if ltb 0 (length c.tools)
      then (w, c, none)
      else let (c₁, init) = http_request "initialize" initialize_params c in
        let (w₁, r) = http_send w c₁ init in
        elim r [
          | err e ↦ (w₁, c₁, some e)
          | ok _ ↦
              let w₂ = out.post_notice w₁ c.url initialized_notice in
              let (c₂, list) = http_request "tools/list" no_params c₁ in
              let (w₃, l) = http_send w₂ c₂ list in
              elim l [
                | err e ↦ (w₃, c₂, some e)
                | ok res ↦ (w₃, record c₂ { tools = c₂.tools ++ tools_of c₂.config.name res }, none)
              ]
        ]

  unfoldable pub http_call : W → String → Fields → HttpClient → W × HttpClient × Called
  unfolding http_request http_send tool_result
  http_call w name args c =
      let (c₁, req) = http_request "tools/call" (call_params name args) c in
      let (w₁, r) = http_send w c₁ req in
      (w₁, c₁, returned (elim r [ err e ↦ err e | ok res ↦ tool_result res ]))

-- The interface Client.
pub data Client : Type 0 where
  stdio : StdioClient → Client
  http : HttpClient → Client

abbrev pub tools : Client → List Tool
tools (stdio c) = c.tools
tools (http c) = c.tools

module _ {W : Type 0} (out : Outside W) where
  unfoldable pub connect : W → Client → W × Client × Option String
  unfolding stdio_connect http_connect
  connect w (stdio c) = let (w', d, e) = stdio_connect out w c in (w', stdio d, e)
  connect w (http c) = let (w', d, e) = http_connect out w c in (w', http d, e)

  unfoldable pub call : W → String → Fields → Client → W × Client × Called
  unfolding stdio_call http_call
  call w name args (stdio c) = let (w', d, r) = stdio_call out w name args c in (w', stdio d, r)
  call w name args (http c) = let (w', d, r) = http_call out w name args c in (w', http d, r)

  unfoldable pub close : W → Client → W × Client
  unfolding stdio_close
  close w (stdio c) = let (w', d) = stdio_close out w c in (w', stdio d)
  close w (http c) = (w, http c)
