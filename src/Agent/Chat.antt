-- ===== src/Agent/Chat.antt =====
-- internal/agent/executor.go: the chat functions, the kubectl tool and the choice of a chat model. `W`
-- is the state of what is outside, which holds what the callback has received, that is not nil here; a
-- message is its text.
pub mod Streams
use Prim.Native.String as Str
use kube_ops_agent.Base.{
  ◌==◌, if◌then◌else◌, same, length, join, ◌+◌, ◌-◌, ◌/◌, String, ite, Bool, true, false, not, ◌||◌,
  Option, none, some, List, [], ◌∷◌, ◌++◌,
}
use kube_ops_agent.Json.{
  Json, Fields, Items, done, item, array, null, boolean, number, text, object, get, as_text,
}
use kube_ops_agent.Agent.Spec.{Spec}
use kube_ops_agent.Agent.Thinking.Commands.{Process, kubectl, Ran}

-- A value, or the text of an error.
pub data Result (A : Type 0) : Type 0 where
  ok : A → Result A
  err : String → Result A

pub record Chunk : Type 0 where
  pub failed : Bool
  pub text : String
  pub is_last : Bool

-- What ChatStream gives: the chunks until the channel closes, that it does not stream, or an error.
pub data Stream : Type 0 where
  chunks : List Chunk → Stream
  not_supported : Stream
  no_stream : String → Stream

module _ {W : Type 0} (on_chunk : W → String → W × Bool) where
  -- The loop over the chunks; `on_chunk` says whether the callback returns an error. The text is
  -- what the builder holds at the end.
  unfoldable pub read_stream : W → String → List Chunk → W × String
  read_stream w full [] = (w, full)
  read_stream w full (c ∷ cs) =
      if c.failed
      then (w, full)
      else (let (w', broke) = on_chunk w c.text in
          let more = read_stream w' (Str.◌++◌ full c.text) cs in
          let skipped = read_stream w full cs in
          if same c.text ""
          then if c.is_last then (w, full) else skipped
          else if broke || c.is_last
          then (w', Str.◌++◌ full c.text)
          else more)

  -- `reply` is the chat agent's message, which may be nil or without text.
  unfoldable pub execute_chat_stream :
      Bool → Stream → (W → W × Result (Option String)) → W → W × Result (Option String)
  unfolding read_stream
  execute_chat_stream false s reply w = (w, err "chat model is nil")
  execute_chat_stream true (no_stream e) reply w = (w, err e)
  execute_chat_stream true not_supported reply w =
      let (w₁, r) = reply w in
      elim r [
        | err e ↦ (w₁, err e)
        | ok none ↦ (w₁, ok none)
        | ok (some t) ↦ let (w₂, _) = on_chunk w₁ t in (if same t "" then w₁ else w₂, ok (some t))
      ]
  execute_chat_stream true (chunks cs) reply w =
      let (w', full) = read_stream w "" cs in (w', ok (some full))

-- `ExecuteChat`
unfoldable pub execute_chat :
    {W : Type 0} → Bool → (W → W × Result (Option String)) → W → W × Result (Option String)
execute_chat has_model reply w = if has_model then reply w else (w, err "chat model is nil")

-- The lines of the skills in the chat's system prompt.
unfoldable pub skill_lines : (String → String → String) → List Spec → String
skill_lines join_path [] = ""
skill_lines join_path (s ∷ ss) =
    Str.◌++◌ "  - "
      (Str.◌++◌ (join_path s.skill_dir "SKILL.md") (Str.◌++◌ "\n" (skill_lines join_path ss)))

unfoldable pub build_chat_sys_prompt : (String → String → String) → List Spec → String
unfolding skill_lines
build_chat_sys_prompt join_path specs =
    let lines = skill_lines join_path specs in
    Str.◌++◌
      "You are a K8s cluster operations assistant that can answer user queries.\nYou can execute read-only kubectl commands to get cluster information, but are NOT allowed to perform any modification operations.\nAnswer concisely and clearly with specific data."
      (if same lines ""
        then ""
        else Str.◌++◌ "\n## Available Skills (use view_text_file to read)\n" lines)

-- The texts among the arguments that are not blank.
unfoldable pub argv : (String → String) → Items → List String
argv trim_space done = []
argv trim_space (item v vs) =
    let rest = argv trim_space vs in
    elim (as_text (some v)) [
      | none ↦ rest
      | some s ↦ if same (trim_space s) "" then rest else s ∷ rest
    ]

-- `raw.([]any)`
abbrev items_of : Json → Option Items
items_of (array xs) = some xs
items_of null = none
items_of (boolean b) = none
items_of (number n) = none
items_of (text s) = none
items_of (object m) = none

-- What the kubectl tool returns.
pub record ToolOutput : Type 0 where
  pub command : List String
  pub output : String
  pub error : Option String

module _ {W : Type 0} (trim_space : String → String) (exec : W → Process → W × Ran) where
  -- `limited` is what Wait of the limiter returns, none where there is no limiter.
  unfoldable pub kubectl_tool : W → Option String → Fields → W × Result ToolOutput
  unfolding argv get
  kubectl_tool w limited args = elim limited [
    | some e ↦ (w, err e)
    | none ↦ elim (get "args" args) [
      | none ↦ (w, err "kubectl: missing args")
      | some raw ↦ elim (items_of raw) [
        | none ↦ (w, err "kubectl: args must be array")
        | some xs ↦
            let words = argv trim_space xs in
            let (w', ran) = exec w (kubectl words) in
            if length words == 0 then (w, err "kubectl: empty args") else (
              w',
              ok (record { command = "kubectl" ∷ words; output = ran.output; error = ran.error }),
            )
      ]
    ]
  ]

-- The configuration of a chat model.
pub record OpenAiConfig : Type 0 where
  pub key : String
  pub model : String
  pub base_url : String

-- `getenv` is os.Getenv, and `get_or` env.Get; the result is what NewOpenAIChatModel is called with.
unfoldable pub new_chat_model_with_override :
    (String → String) → (String → String → String) → String → Result OpenAiConfig
new_chat_model_with_override getenv get_or model_override =
    let or_next : String → String → String = λ a b. if same a "" then b else a in
    let key : String =
      or_next (getenv "OPENAI_API_KEY")
        (or_next (getenv "DASHSCOPE_API_KEY") (getenv "ANTHROPIC_API_KEY")) in
    if same key ""
    then err
        "no supported chat model env configured (e.g. OPENAI_API_KEY, DASHSCOPE_API_KEY, or ANTHROPIC_API_KEY)"
    else ok (record {
      key = key;
      model =
          if same model_override "" then get_or "OPENAI_MODEL" "gpt-4o-mini" else model_override;
      base_url = getenv "OPENAI_BASE_URL";
    })
