-- ===== src/Httpapi/Reports.antt =====
-- internal/httpapi/server.go: handleReportsList, handleReportDetail and handleReportPOST. `query` is the
-- Get of the URL's query, `atoi` strconv.Atoi on numbers from 0 on, none for an error, `atoi_value` its
-- value, whatever its error, where that is not negative and 0 else, and `parse_time` what time.Unix makes of strconv.ParseFloat, none for an error. `I` stands for a report's
-- item, `posts` says whether the method is POST.
use kube_ops_agent.Base.{
  ltb, ◌==◌, if◌then◌else◌, same, lookup, ℕ, ◌≤◌, String, Bool, not, ◌&&◌, ◌||◌, Option, none, some,
  List, [], ◌∷◌, arith,
}
use kube_ops_agent.Httpapi.Requests.{AgentRequest, Block, get_int, get_string}

-- The arguments of the list of reports.
pub record ListQuery : Type 0 where
  pub limit : ℕ
  pub offset : ℕ
  pub start_time : Option ℕ
  pub end_time : Option ℕ

module _ (trim_space : String → String) (lower : String → String) (atoi : String → Option ℕ)
    (atoi_value : String → ℕ) (parse_time : String → Option ℕ) where
  unfoldable pub url_list_query : (String → String) → ListQuery
  url_list_query query =
      let n = atoi_value (query "limit") in
      record {
        limit = if n == 0 then 50 else n;
        offset = atoi_value (query "offset");
        start_time = let v = query "start_time" in if same v "" then none else parse_time v;
        end_time = let v = query "end_time" in if same v "" then none else parse_time v;
      }

  -- A time that the parameters give, if it is not the epoch.
  abbrev time_param : List (String × String) → String → Option ℕ → Option ℕ
  time_param params key old = elim (lookup key params) [
    | none ↦ old
    | some v ↦ elim (parse_time (trim_space v)) [
      | none ↦ old
      | some t ↦ if ltb 0 t then some t else old
    ]
  ]

  -- The parameters of the body, where it is a POST of JSON with a text.
  unfoldable pub with_params : List (String × String) → ListQuery → ListQuery
  unfolding get_int
  with_params params q =
      let n = get_int trim_space lower atoi params "limit" q.limit in
      record {
        limit = if ltb 0 n then n else q.limit;
        offset = get_int trim_space lower atoi params "offset" q.offset;
        start_time = time_param params "start_time" q.start_time;
        end_time = time_param params "end_time" q.end_time;
      }

  unfoldable pub list_query : (String → String) → Option (List (String × String)) → ListQuery
  unfolding url_list_query with_params
  list_query query none = url_list_query query
  list_query query (some params) = with_params params (url_list_query query)

  -- Whatever a request says, its limit is at least 1.
  list_query-limit :
      (query : String → String) (params : Option (List (String × String)))
      → 1 ≤ (list_query query params).limit
  unfolding list_query
  list_query-limit query none = ground arith
  list_query-limit query (some params) = ground arith

-- The text of the first block that has one.
unfoldable pub first_text : List Block → String
first_text [] = ""
first_text (b ∷ bs) =
    let rest = first_text bs in if same b.kind "text" && not (same b.text "") then b.text else rest

unfoldable pub first_content : AgentRequest → String
unfolding first_text
first_content [] = ""
first_content (m ∷ ms) =
    let rest = first_content ms in let t = first_text m in if same t "" then rest else t

-- What the handlers of one report answer.
pub data Answer (I : Type 0) : Type 0 where
  bad_request : String → Answer I
  not_found internal_error : String → Answer I
  markdown : String → Answer I
  found : I → String → Answer I
  saved : I → String → Answer I

-- A value, or the text of an error.
pub data Result (A : Type 0) : Type 0 where
  ok : A → Result A
  err : String → Result A

-- The body of a POST: its content and its messages, or the text of the error of its decoding.
abbrev pub Body : Type 0
Body = Result (String × AgentRequest)

module _ {I : Type 0} (save : String → Result I) where
  unfoldable pub handle_report_post : Bool → Body → Answer I
  unfolding first_content
  handle_report_post is_json body =
      if not is_json then bad_request "Content-Type must be application/json" else elim body [
        | err e ↦ bad_request e
        | ok (content, input) ↦
            let text : String = if same content "" then first_content input else content in
            let answer : Answer I = elim (save text) [
              | err e ↦ internal_error e
              | ok it ↦ saved it text
            ] in
            if same text "" then bad_request "missing content or input" else answer
      ]

-- What asks for a report: the latest, or one with an identifier.
pub data Wanted : Type 0 where
  latest : Wanted
  by_id : String → Wanted

module _ {I : Type 0} (save : String → Result I) (get : Wanted → Result (I × String)) where
  -- A GET: the identifier, whether the latest is asked for, and the format.
  unfoldable pub handle_report_get : String → Bool → String → Answer I
  handle_report_get id wants_latest format =
      if not wants_latest && same id ""
      then bad_request "missing id or latest=true"
      else elim (get (if wants_latest then latest else by_id id)) [
        | err e ↦ not_found e
        | ok (it, body) ↦ if same format "markdown" then markdown body else found it body
      ]

  -- A POST: a report that its parameters ask for, or one that it saves. `params` is none where there
  -- is no text in the body.
  unfoldable pub handle_report_detail_post :
      (String → String)
      → (String → String)
      → Bool
      → Body
      → Option (List (String × String))
      → Answer I
  unfolding handle_report_post get_string
  handle_report_detail_post trim_space lower is_json body params =
      let content : String = elim body [ err e ↦ "" | ok (c, input) ↦ c ] in
      let posted = handle_report_post save is_json body in
      if not is_json || not (same content "") then posted else elim params [
        | none ↦ posted
        | some ps ↦
            let id : String = get_string trim_space lower (λ s. none) ps "id" in
            let wants_latest : Bool =
              same (lower (get_string trim_space lower (λ s. none) ps "latest")) "true" in
            let answer : Answer I = elim (get (if wants_latest then latest else by_id id)) [
              | err e ↦ not_found e
              | ok (it, text) ↦ found it text
            ] in
            if wants_latest || not (same id "") then answer else posted
      ]
