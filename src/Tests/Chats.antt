-- ===== src/Tests/Chats.antt =====
-- internal/agent/executor.go: a stream at concrete inputs.
use Prim.Native.String as Str
use kube_ops_agent.Base.{
  str_dec, String, ◌≡◌, refl, Bool, true, false, Option, none, some, List, [], ◌∷◌,
}
use kube_ops_agent.Agent.Chat.{Chunk, Result, ok, chunks, read_stream, execute_chat_stream}
use kube_ops_agent.Agent.Chat.Streams.{execute_chat_stream-heard}

-- A callback that keeps what it receives, and fails never.
abbrev keeps : String → String → String × Bool
keeps w t = (Str.◌++◌ w t, false)

abbrev streamed : List Chunk
streamed =
    record { failed = false; text = "po"; is_last = false }
    ∷ record { failed = false; text = "ds"; is_last = true }
    ∷ []

abbrev no_reply : String → String × Result (Option String)
no_reply w = (w, ok none)

streams : execute_chat_stream keeps true (chunks streamed) no_reply "" ≡ ("pods", ok (some "pods"))
unfolding execute_chat_stream read_stream str_dec
streams = refl

execute_chat_stream-heard_example : ◌≡◌ {A = String} "pods" "pods"
execute_chat_stream-heard_example =
    execute_chat_stream-heard keeps (λ w. w) (λ w t. refl) streamed no_reply "" "pods" "pods" refl
      streams
