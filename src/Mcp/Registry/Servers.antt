-- ===== src/Mcp/Registry/Servers.antt =====
-- The servers of the registry's tools.
use mathlib.Core.Path.{subst}
use kube_ops_agent.Base.{
  ltb, same, Bool-cases, length, All, insert, HasKey, HasKey-insert_self, String, ◌≡◌, refl, inl,
  inr, not, ◌||◌, List, [], ◌∷◌, map, arith,
}
use kube_ops_agent.Mcp.Protocol.{Tool, ServerConfig, Result, Result-cases, ok, err}
use kube_ops_agent.Mcp.Registry.{
  Server, Registry, Decoders, ServerEntry, ToolEntry, add_entries, add_servers_a, add_servers_b,
  new_registry, init_from_config,
}

-- Every tool stands under its name, and its server is registered.
abbrev pub IsGrounded : Registry → Type 0
IsGrounded r = All (λ e. (e.1.name ≡ e.0) × HasKey e.1.server_name r.servers) r.tools

HasKey-insert_more :
    {A : Type 0} (k j : String) (v : A) (m : List (String × A))
    → HasKey j m
    → HasKey j (insert k v m)
unfolding insert
HasKey-insert_more k j v [] h = absurd h
HasKey-insert_more k j v ((i, w) ∷ m) h = ground (arith, HasKey-insert_more k j v m)

IsGrounded-insert :
    (s : String) (srv : Server) (servers : List (String × Server)) (ts : List (String × Tool))
    → All (λ e. (e.1.name ≡ e.0) × HasKey e.1.server_name servers) ts
    → All (λ e. (e.1.name ≡ e.0) × HasKey e.1.server_name (insert s srv servers)) ts
IsGrounded-insert s srv servers [] h = tt
IsGrounded-insert s srv servers ((k, t) ∷ ts) h = (
  (h.0.0, HasKey-insert_more s t.server_name srv servers h.0.1),
  IsGrounded-insert s srv servers ts h.1,
)

All-insert :
    {A : Type 0} (P : String × A → Type 0) (k : String) (v : A) (m : List (String × A))
    → P (k, v)
    → All P m
    → All P (insert k v m)
unfolding insert
All-insert P k v [] h hs = (h, tt)
All-insert P k v ((j, w) ∷ m) h hs = ground (arith, All-insert P k v m h hs.1)

add_entries-IsGrounded :
    (server : String) (ts : List ToolEntry) (r : Registry)
    → HasKey server r.servers
    → IsGrounded r
    → IsGrounded (add_entries server ts r)
unfolding add_entries
add_entries-IsGrounded server [] r k h = h
add_entries-IsGrounded server (t ∷ ts) r k h =
    let made : Tool = record {
      name = t.name;
      description = t.description;
      server_name = server;
      input_schema = t.input_schema;
    } in
    let next : Registry = record r { tools = insert t.name made r.tools } in
    add_entries-IsGrounded server ts next k (
      All-insert (λ e. (e.1.name ≡ e.0) × HasKey e.1.server_name r.servers) t.name made r.tools
        (refl, k) h)

add_servers_a-IsGrounded :
    (srvs : List ServerEntry) (r : Registry) → IsGrounded r → IsGrounded (add_servers_a srvs r)
unfolding add_servers_a
add_servers_a-IsGrounded [] r h = h
add_servers_a-IsGrounded (srv ∷ srvs) r h =
    let made : Server = record {
      name = srv.name;
      description = srv.description;
      tools = map (λ t. t.name) srv.tools;
    } in
    let next : Registry = record r { servers = insert srv.name made r.servers } in
    add_servers_a-IsGrounded srvs (add_entries srv.name srv.tools next) (
      add_entries-IsGrounded srv.name srv.tools next (HasKey-insert_self srv.name made r.servers)
        (IsGrounded-insert srv.name made r.servers r.tools h))

add_servers_b-IsGrounded :
    (scs : List ServerConfig) (r : Registry) → IsGrounded r → IsGrounded (add_servers_b scs r)
unfolding add_servers_b
add_servers_b-IsGrounded [] r h = h
add_servers_b-IsGrounded (sc ∷ scs) r h =
    let made : Server = record { name = sc.name; description = sc.description; tools = [] } in
    elim (Bool-cases (not sc.enabled || same sc.name "")) [
      | inl skip ↦ rw (skip, add_servers_b) (add_servers_b-IsGrounded scs r h)
      | inr entered ↦
          rw (entered, add_servers_b)
            (add_servers_b-IsGrounded scs (record r { servers = insert sc.name made r.servers })
              (IsGrounded-insert sc.name made r.servers r.tools h))
    ]

abbrev IsGroundedResult : Result Registry → Type 0
IsGroundedResult (err e) = Unit
IsGroundedResult (ok r) = IsGrounded r

module _ {D : Type 0} (decode : Decoders D) where
  init_from_config-IsGroundedResult :
      (read : Result D) → IsGroundedResult (init_from_config decode read)
  unfolding init_from_config
  init_from_config-IsGroundedResult (err e) = tt
  init_from_config-IsGroundedResult (ok bytes) = elim (Result-cases (decode.config_a bytes)) [
    | inr (e, bad) ↦ rw (bad, init_from_config) tt
    | inl (srvs, good) ↦
        let r = add_servers_a srvs new_registry in
        let first = add_servers_a-IsGrounded srvs new_registry tt in
        elim (Bool-cases (ltb 0 (length r.servers))) [
          | inl some_there ↦ rw (good, init_from_config, some_there) first
          | inr none_there ↦ elim (Result-cases (decode.config_b bytes)) [
            | inr (e, bad) ↦ rw (good, init_from_config, none_there, bad) first
            | inl (scs, also) ↦
                rw (good, init_from_config, none_there, also) (add_servers_b-IsGrounded scs r first)
          ]
        ]
  ]

  -- In a registry that loads from a configuration of either format, every tool stands under its own
  -- name and belongs to a server that is registered.
  pub init_from_config-IsGrounded :
      (read : Result D) (r : Registry) → init_from_config decode read ≡ ok r → IsGrounded r
  init_from_config-IsGrounded read r h =
      subst IsGroundedResult h (init_from_config-IsGroundedResult read)
