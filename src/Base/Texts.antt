-- ===== src/Base/Texts.antt =====
-- Texts: whether one contains another, and joining.
use Prim.Native.String.{String, ◌++◌}
use mathlib.Core.Bool.{Bool, true, false}
use mathlib.Core.Option.{none, some}
use mathlib.Core.List.{List, [], ◌∷◌}
use text.Mathlib.Text.{find?}

-- `strings.Contains`
abbrev pub contains : String → String → Bool
contains text part = elim (find? text part) [ none ↦ false | some _ ↦ true ]

-- `strings.Join`
unfoldable pub join : String → List String → String
join between [] = ""
join between (t ∷ []) = t
join between (t ∷ u ∷ ts) = t ++ (between ++ join between (u ∷ ts))
