-- ===== src/Engine/Explanation.antt =====
-- The texts of a decision in src/engine/safetyFloors.ts: `stripAdjustmentSuffix`, and the suffix
-- that names the adjustments.
use Prim.Native.Char.{code}
use Prim.Native.String
use Prim.Native.String.{String, [], ◌∷◌}
use mathlib.Core.Bool.{Bool, false}
use mathlib.Core.Option.{Option, none, some}
use mathlib.Core.List.{List}
use nyst.Base.{eqb, if◌then◌else◌}
use nyst.Engine.Adjustment.{Adjustment, adjustment_code}

abbrev pub suffix_start : String
suffix_start = " [core safety adjusted: "

-- The rest of a text behind a prefix.
unfoldable pub drop_prefix : String → String → Option String
drop_prefix [] s = some s
drop_prefix (p ∷ ps) [] = none
drop_prefix (p ∷ ps) (c ∷ s) =
    let rest = drop_prefix ps s in if eqb (code p) (code c) then rest else none

-- `[^\]]*\]$`: a bracket closes the text, and there is none before.
unfoldable pub closes : String → Bool
closes [] = false
closes (c ∷ []) = eqb (code c) b']'
closes (c ∷ d ∷ s) = let rest = closes (d ∷ s) in if eqb (code c) b']' then false else rest

-- The regular expression of `stripAdjustmentSuffix`, at the start of a text.
unfoldable pub is_adjustment_suffix : String → Bool
unfolding drop_prefix closes
is_adjustment_suffix s = elim (drop_prefix suffix_start s) [
  | none ↦ false
  | some rest ↦ closes rest
]

-- `stripAdjustmentSuffix`: the leftmost match is removed.
unfoldable pub strip_adjustment_suffix : String → String
unfolding is_adjustment_suffix
strip_adjustment_suffix [] = []
strip_adjustment_suffix (c ∷ s) =
    let rest = c ∷ strip_adjustment_suffix s in if is_adjustment_suffix (c ∷ s) then [] else rest

-- `codes.join(", ")`
unfoldable pub join_codes : List Adjustment → String
unfolding adjustment_code
join_codes List.[] = ""
join_codes (List.◌∷◌ a List.[]) = adjustment_code a
join_codes (List.◌∷◌ a (List.◌∷◌ b as')) =
    String.◌++◌ (adjustment_code a) (String.◌++◌ ", " (join_codes (List.◌∷◌ b as')))

-- `stripAdjustmentSuffix(explanation) + " [core safety adjusted: " + … + "]"`
unfoldable pub explain : String → List Adjustment → String
unfolding strip_adjustment_suffix join_codes
explain explanation adjustments =
    String.◌++◌ (strip_adjustment_suffix explanation)
      (String.◌++◌ suffix_start (String.◌++◌ (join_codes adjustments) "]"))
