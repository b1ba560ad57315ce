-- ===== src/Mcp/Runtime/Served.antt =====
-- Every tool of a runtime has a connected client, and is listed once.
use mathlib.Core.Path.{subst}
use kube_ops_agent.Base.{
  Bool-cases, Option-cases, str_dec, All, is_member, lookup, insert, lookup-insert, HasKey,
  HasDistinctKeys, HasDistinctKeys-insert, String, ◌≡◌, refl, ap, ◌∙◌, inl, inr, false, Option,
  none, some, List, [], ◌∷◌, map, arith,
}
use kube_ops_agent.Json.{Fields}
use kube_ops_agent.Mcp.Protocol.{Tool, ServerConfig}
use kube_ops_agent.Mcp.Client.{Outside, Client, tools, connect, call}
use kube_ops_agent.Mcp.Runtime.{
  Runtime, Maps, new_runtime, client_for, add_tools, add_client, initialize_one, initialize_all,
  initialize, shutdown, call_tool, unseen, get_tools,
}

-- A client whose Connect returned no error, and what calls of its tools made of it since.
pub data IsConnected {W : Type 0} (out : Outside W) : Client → Type 0 where
  joined : (w w' : W) (c d : Client) → connect out w c ≡ (w', d, none) → IsConnected out d
  used :
      (w : W) (name : String) (args : Fields) (c : Client)
      → IsConnected out c
      → IsConnected out (call out w name args c).1

-- A tool with a server has a connected client, and its own name; every client is connected.
pub record IsServed {W : Type 0} (out : Outside W) (m : Maps) : Type 0 where
  pub connected :
      (server : String) (c : Client) → lookup server m.clients ≡ some c → IsConnected out c
  pub client :
      (name server : String)
      → lookup name m.server ≡ some server
      → (c : Client) × (lookup server m.clients ≡ some c)
  pub distinct : HasDistinctKeys m.tools
  pub names : All (λ e. e.1.name ≡ e.0) m.tools

abbrev pub IsServedRuntime : {W : Type 0} → Outside W → Option Runtime → Type 0
IsServedRuntime out none = Unit
IsServedRuntime out (some r) = elim r.maps [ none ↦ Unit | some m ↦ IsServed out m ]

All-insert :
    {A : Type 0} (P : String × A → Type 0) (k : String) (v : A) (m : List (String × A))
    → P (k, v)
    → All P m
    → All P (insert k v m)
unfolding insert
All-insert P k v [] h hs = (h, tt)
All-insert P k v ((j, w) ∷ m) h hs = ground (arith, All-insert P k v m h hs.1)

module _ {W : Type 0} (out : Outside W) where
  add_tools-IsServed :
      (server : String) (ts : List Tool) (m : Maps) (c : Client)
      → lookup server m.clients ≡ some c
      → IsServed out m
      → IsServed out (add_tools server ts m)
  unfolding add_tools
  add_tools-IsServed server [] m c e h = h
  add_tools-IsServed server (t ∷ ts) m c e h =
      let next : Maps = record m {
        tools = insert t.name t m.tools;
        server = insert t.name server m.server;
      } in
      add_tools-IsServed server ts next c e (record {
        connected = h.connected;
        client = λ name s p. elim (str_dec name t.name) [
          | yes q ↦ (c, ground (arith, lookup-insert t.name name server m.server))
          | no q ↦ h.client name s (ground (arith, lookup-insert t.name name server m.server))
        ];
        distinct = HasDistinctKeys-insert t.name t m.tools h.distinct;
        names = All-insert (λ e. e.1.name ≡ e.0) t.name t m.tools refl h.names;
      })

  insert_client-IsServed :
      (server : String) (c : Client) (m : Maps)
      → IsConnected out c
      → IsServed out m
      → IsServed out (record m { clients = insert server c m.clients })
  insert_client-IsServed server c m joined_now h = record {
    connected = λ s d p. elim (str_dec s server) [
      | yes q ↦
          let own : c ≡ d = ground (arith, p, q, lookup-insert server s c m.clients) in
          subst (IsConnected out) own joined_now
      | no q ↦ h.connected s d (ground (arith, p, q, lookup-insert server s c m.clients))
    ];
    client = λ name s p.
        let (c', e) = h.client name s p in
        elim (str_dec s server) [
          | yes q ↦ (c, ground (arith, lookup-insert server s c m.clients))
          | no q ↦ (c', ground (arith, lookup-insert server s c m.clients))
        ];
    distinct = h.distinct;
    names = h.names;
  }

  add_client-IsServed :
      (server : String) (c : Client) (m : Maps)
      → IsConnected out c
      → IsServed out m
      → IsServed out (add_client server c m)
  unfolding add_client
  add_client-IsServed server c m joined_now h =
      let here : Maps = record m { clients = insert server c m.clients } in
      add_tools-IsServed server (tools c) here c
        (ground (arith, lookup-insert server server c m.clients))
        (insert_client-IsServed server c m joined_now h)

  initialize_one-IsServed :
      (w : W) (cfg : ServerConfig) (r : Runtime)
      → IsServedRuntime out (some r)
      → IsServedRuntime out (initialize_one out w cfg r).1
  unfolding initialize_one
  initialize_one-IsServed w cfg r h = elim (Bool-cases cfg.enabled) [
    | inr off ↦ rw (off, initialize_one) h
    | inl on ↦ elim (Option-cases (client_for cfg)) [
      | inl e ↦ rw (e, initialize_one, on) h
      | inr (client, e) ↦ elim (Option-cases (connect out w client).2) [
        | inr (text, bad) ↦ rw (e, initialize_one, bad, on) h
        | inl good ↦ elim (Option-cases r.maps) [
          | inl e' ↦ rw (e, initialize_one, good, e', on) tt
          | inr (m, e') ↦
              rw (e, initialize_one, good, e', on)
                (add_client-IsServed cfg.name (connect out w client).1 m
                  (joined w (connect out w client).0 client (connect out w client).1
                    (ground (arith, good)))
                  (rw e' at h))
        ]
      ]
    ]
  ]

  initialize_all-IsServed :
      (w : W) (cfgs : List ServerConfig) (r : Runtime)
      → IsServedRuntime out (some r)
      → IsServedRuntime out (initialize_all out w cfgs r).1
  unfolding initialize_all
  initialize_all-IsServed w [] r h = h
  initialize_all-IsServed w (cfg ∷ cfgs) r h =
      let one = initialize_one-IsServed w cfg r h in
      let first = initialize_one out w cfg r in
      elim (Option-cases first.1) [
        | inl e ↦ rw (e, initialize_all) tt
        | inr (r', e) ↦
            rw (e, initialize_all) (initialize_all-IsServed first.0 cfgs r' (rw e at one))
      ]

  call_tool-IsServed :
      (w : W) (name : String) (args : Fields) (r : Runtime)
      → IsServedRuntime out (some r)
      → IsServedRuntime out (some (call_tool out w name args r).1)
  unfolding call_tool
  call_tool-IsServed w name args r h = elim (Option-cases r.maps) [
    | inl e ↦ rw (e, call_tool) h
    | inr (m, e) ↦ elim (Option-cases (lookup name m.server)) [
      | inl e₁ ↦ rw (e, call_tool, e₁) h
      | inr (server, e₁) ↦ elim (Option-cases (lookup server m.clients)) [
        | inl e₂ ↦ rw (e, call_tool, e₁, e₂) h
        | inr (c, e₂) ↦
            let served : IsServed out m = rw e at h in
            rw (e, call_tool, e₁, e₂)
              (insert_client-IsServed server (call out w name args c).1 m
                (used w name args c (served.connected server c e₂)) served)
      ]
    ]
  ]

-- The operations of a runtime.
pub data Op : Type 0 where
  initializes : List ServerConfig → Op
  calls : String → Fields → Op
  shuts : Op

module _ {W : Type 0} (out : Outside W) where
  unfoldable pub run : W → List Op → Runtime → W × Option Runtime
  run w [] r = (w, some r)
  run w (initializes cfgs ∷ ops) r =
      let (w', o) = initialize out w cfgs r in
      elim o [ none ↦ (w', none) | some r' ↦ run w' ops r' ]
  run w (calls name args ∷ ops) r = let (w', r', res) = call_tool out w name args r in run w' ops r'
  run w (shuts ∷ ops) r = let (w', r') = shutdown out w r in run w' ops r'

  shutdown-IsServed : (w : W) (r : Runtime) → IsServedRuntime out (some (shutdown out w r).1)
  unfolding shutdown
  shutdown-IsServed w r = ground arith

  initialize-IsServed :
      (w : W) (cfgs : List ServerConfig) (r : Runtime)
      → IsServedRuntime out (some r)
      → IsServedRuntime out (initialize out w cfgs r).1
  unfolding initialize
  initialize-IsServed w cfgs r h = initialize_all-IsServed out w cfgs r h

  run-IsServedRuntime :
      (w : W) (ops : List Op) (r : Runtime)
      → IsServedRuntime out (some r)
      → IsServedRuntime out (run w ops r).1
  unfolding run
  run-IsServedRuntime w [] r h = h
  run-IsServedRuntime w (initializes cfgs ∷ ops) r h =
      let one = initialize-IsServed w cfgs r h in
      let first = initialize out w cfgs r in
      elim (Option-cases first.1) [
        | inl e ↦ rw (e, run) tt
        | inr (r', e) ↦ rw (e, run) (run-IsServedRuntime first.0 ops r' (rw e at one))
      ]
  run-IsServedRuntime w (calls name args ∷ ops) r h =
      let next = call_tool out w name args r in
      run-IsServedRuntime next.0 ops next.1 (call_tool-IsServed out w name args r h)
  run-IsServedRuntime w (shuts ∷ ops) r h =
      let next = shutdown out w r in run-IsServedRuntime next.0 ops next.1 (shutdown-IsServed w r)

no_client :
    {W : Type 0} {out : Outside W} (server : String) (c : Client)
    → lookup server [] ≡ some c
    → IsConnected out c
unfolding lookup
no_client server c p = ground arith

no_server :
    (name s : String) → lookup {V = String} name [] ≡ some s → (c : Client) × (lookup s [] ≡ some c)
unfolding lookup
no_server name s p = ground arith

unseen_next :
    (k : String) (seen : List String) (ts : List (String × Tool))
    → ¬ HasKey k ts
    → All (λ e. is_member e.0 seen ≡ false) ts
    → All (λ e. is_member e.0 (k ∷ seen) ≡ false) ts
unfolding is_member
unseen_next k seen [] h u = tt
unseen_next k seen ((j, t) ∷ ts) h u =
    (ground (arith, λ (e : k ≡ j). h (inl e), u.0), unseen_next k seen ts (λ x. h (inr x)) u.1)

unseen_nil : (ts : List (String × Tool)) → All (λ e. is_member e.0 [] ≡ false) ts
unfolding is_member
unseen_nil [] = tt
unseen_nil (t ∷ ts) = (refl, unseen_nil ts)

unseen_lem :
    (seen : List String) (ts : List (String × Tool))
    → HasDistinctKeys ts
    → All (λ e. e.1.name ≡ e.0) ts
    → All (λ e. is_member e.0 seen ≡ false) ts
    → unseen seen ts ≡ map (λ e. e.1) ts
unfolding unseen
unseen_lem seen [] d n u = refl
unseen_lem seen ((k, t) ∷ ts) d n u =
    let rest = unseen_lem (k ∷ seen) ts d.1 n.1 (unseen_next k seen ts d.0 u.1) in
    let fresh : is_member t.name seen ≡ false = ap (λ x. is_member x seen) n.0 ∙ u.0 in
    let rest' : unseen (t.name ∷ seen) ts ≡ map (λ e. e.1) ts =
      ap (λ x. unseen (x ∷ seen) ts) n.0 ∙ rest in
    rw (fresh, unseen) (ap (λ xs. t ∷ xs) rest')

module _ {W : Type 0} (out : Outside W) where
  pub run-IsServed :
      (w : W) (ops : List Op) (m : Maps)
      → (run out w ops new_runtime).1 ≡ some (record { maps = some m })
      → IsServed out m × (get_tools (record { maps = some m }) ≡ map (λ e. e.1) m.tools)
  unfolding get_tools
  run-IsServed w ops m e =
      let start : IsServedRuntime out (some new_runtime) = record {
        connected = λ server c p. no_client server c p;
        client = λ name s p. no_server name s p;
        distinct = tt;
        names = tt;
      } in
      let served =
        subst (IsServedRuntime out) e (run-IsServedRuntime out w ops new_runtime start) in
      (served, unseen_lem [] m.tools served.distinct served.names (unseen_nil m.tools))
