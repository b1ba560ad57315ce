-- ===== src/Agent/Chat/Streams.antt =====
-- What a stream's callback receives and what is returned.
use Prim.Native.String as Str
use kube_ops_agent.Base.{String, ◌≡◌, ap, ◌∙◌, Bool, true, Option, some, List, [], ◌∷◌, arith}
use kube_ops_agent.Agent.Chat.{Chunk, Result, ok, chunks, read_stream, execute_chat_stream}

-- `heard` is the text that the callback has received: each call adds its text.
module _ {W : Type 0} (on_chunk : W → String → W × Bool) (heard : W → String)
    (adds : (w : W) (t : String) → heard (on_chunk w t).0 ≡ Str.◌++◌ (heard w) t) where
  read_stream-heard :
      (w : W) (full : String) (cs : List Chunk)
      → heard w ≡ full
      → heard (read_stream on_chunk w full cs).0 ≡ (read_stream on_chunk w full cs).1
  unfolding read_stream
  read_stream-heard w full [] h = h
  read_stream-heard w full (c ∷ cs) h =
      let w' = (on_chunk w c.text).0 in
      let next : heard w' ≡ Str.◌++◌ full c.text = adds w c.text ∙ ap (λ s. Str.◌++◌ s c.text) h in
      ground (
        arith,
        h,
        next,
        read_stream-heard w' (Str.◌++◌ full c.text) cs next,
        read_stream-heard w full cs h,
      )

  -- A stream that opens, for a callback that has received nothing: the text that is returned is the text that
  -- the callback has received in all, wherever the stream ends.
  pub execute_chat_stream-heard :
      (cs : List Chunk) (reply : W → W × Result (Option String)) (w w' : W) (text : String)
      → heard w ≡ ""
      → execute_chat_stream on_chunk true (chunks cs) reply w ≡ (w', ok (some text))
      → heard w' ≡ text
  unfolding execute_chat_stream
  execute_chat_stream-heard cs reply w w' text h e =
      let all = read_stream-heard w "" cs h in ground (arith, all, e)
