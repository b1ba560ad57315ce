-- ===== src/Httpapi/Requests/Params.antt =====
-- The parameters of a request.
use Prim.Native.String.{len, slice}
use text.Mathlib.Text.{find?}
use kube_ops_agent.Base.{
  ltb, same, Bool-cases, Option-cases, HasKey, HasKey-insert, HasDistinctKeys,
  HasDistinctKeys-insert, ◌+◌, String, inl, inr, not, ◌&&◌, List, [], ◌∷◌, arith,
}
use kube_ops_agent.Httpapi.Requests.{add_param, add_params, parse_params_from_text}

module _ (trim_space : String → String) (split : String → List String) where
  -- A map of parameters: each key once, and none of them empty.
  pub record IsParams (m : List (String × String)) : Type 0 where
    pub distinct : HasDistinctKeys m
    pub named : ¬ HasKey "" m

  add_param-IsParams :
      (raw : String) (m : List (String × String))
      → IsParams m
      → IsParams (add_param trim_space split raw m)
  unfolding add_param
  add_param-IsParams raw m h =
      let param : String = trim_space raw in
      elim (Option-cases (find? param ":")) [
        | inl e ↦ rw (e, add_param) h
        | inr (idx, e) ↦
            let k : String = trim_space (slice param 0 idx) in
            let v : String = trim_space (slice param (idx + 1) (len param)) in
            elim (Bool-cases (ltb 0 idx && not (same k ""))) [
              | inr skip ↦ rw (e, add_param, skip) h
              | inl stored ↦
                  rw (e, add_param, stored)
                    (record {
                      distinct = HasDistinctKeys-insert k v m h.distinct;
                      named = λ x. elim (HasKey-insert k "" v m x) [
                        | inl p ↦ ground (arith, stored, p)
                        | inr q ↦ h.named q
                      ];
                    })
            ]
      ]

  add_params-IsParams :
      (ps : List String) (m : List (String × String))
      → IsParams m
      → IsParams (add_params trim_space split ps m)
  unfolding add_params
  add_params-IsParams [] m h = h
  add_params-IsParams (p ∷ ps) m h =
      add_params-IsParams ps (add_param trim_space split p m) (add_param-IsParams p m h)

  -- Whatever the text, its parameters have each key once, and no empty key.
  pub parse_params_from_text-IsParams :
      (text : String) → IsParams (parse_params_from_text trim_space split text)
  unfolding parse_params_from_text
  parse_params_from_text-IsParams text =
      add_params-IsParams (split text) [] (record { distinct = tt; named = λ h. h })
