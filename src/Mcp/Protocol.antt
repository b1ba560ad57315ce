-- ===== src/Mcp/Protocol.antt =====
-- internal/mcp/client.go and registry.go: what is sent and received, and what both kinds of client
-- read from it; `show` is the text that `%v` gives.
use Prim.Native.String.{◌++◌}
use kube_ops_agent.Base.{
  if◌then◌else◌, same, join, ℕ, String, ◌≡◌, refl, ◌⊎◌, inl, inr, Bool, Option, none, some, List,
  [], ◌∷◌, map,
}
use kube_ops_agent.Json.{
  Json, Items, done, item, Fields, get, as_text, as_object, as_array, is_true,
}

-- The items that are objects.
unfoldable pub objects : Items → List Fields
objects done = []
objects (item v vs) = elim (as_object (some v)) [ none ↦ objects vs | some m ↦ m ∷ objects vs ]

unfoldable pub get_str : Fields → String → String
unfolding get
get_str m k = elim (as_text (get k m)) [ none ↦ "" | some s ↦ s ]

unfoldable pub get_map : Fields → String → Option Fields
unfolding get
get_map m k = as_object (get k m)

pub record Tool : Type 0 where
  pub name : String
  pub description : String
  pub server_name : String
  pub input_schema : Option Fields

pub record ToolResult : Type 0 where
  pub content : List Fields
  pub is_error : Bool

-- The texts of the content's items of the type `text`.
unfoldable pub texts_of : List Fields → List String
unfolding get
texts_of [] = []
texts_of (m ∷ ms) =
    let rest = texts_of ms in
    elim (as_text (get "type" m)) [
      | none ↦ rest
      | some kind ↦
          if same kind "text"
          then elim (as_text (get "text" m)) [ none ↦ rest | some s ↦ s ∷ rest ]
          else rest
    ]

unfoldable pub get_text : ToolResult → String
unfolding texts_of join
get_text r = join "\n" (texts_of r.content)

pub record ServerConfig : Type 0 where
  pub name : String
  pub command : String
  pub args : List String
  pub transport : String
  pub url : String
  pub env : List (String × String)
  pub enabled : Bool
  pub description : String

-- The parameters of a request.
pub data Params : Type 0 where
  no_params initialize_params : Params
  call_params : String → Fields → Params

-- A notification has no `id`.
pub record Request : Type 0 where
  pub method : String
  pub id : Option ℕ
  pub params : Params

-- A value, or the text of an error.
pub data Result (A : Type 0) : Type 0 where
  ok : A → Result A
  err : String → Result A

pub Result-cases :
    {A : Type 0} (r : Result A) → ((a : A) × (r ≡ ok a)) ⊎ ((e : String) × (r ≡ err e))
Result-cases (ok a) = inl (a, refl)
Result-cases (err e) = inr (e, refl)

-- What `send` makes of the decoded response: its error, or its result, which may be nil.
unfoldable pub answer_of : (Option Json → String) → Fields → Result (Option Json)
unfolding get
answer_of show resp = elim (as_object (get "error" resp)) [
  | some em ↦ err ("MCP error: " ++ show (get "message" em))
  | none ↦ ok (get "result" resp)
]

-- The tools in the result of `tools/list`.
unfoldable pub tools_of : String → Option Json → List Tool
unfolding get get_str get_map objects
tools_of server res = elim (as_object res) [
  | none ↦ []
  | some m ↦
      map
        (λ t. record {
          name = get_str t "name";
          description = get_str t "description";
          server_name = server;
          input_schema = get_map t "inputSchema";
        })
        (objects (as_array (get "tools" m)))
]

-- What `CallTool` makes of the answer.
unfoldable pub tool_result : Option Json → Result ToolResult
unfolding get objects
tool_result res = elim (as_object res) [
  | none ↦ err "unexpected response"
  | some m ↦ ok (record {
    content = objects (as_array (get "content" m));
    is_error = is_true (get "isError" m);
  })
]
