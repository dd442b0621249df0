-- ===== src/OptParam/Markers/Leftmost.antt =====
-- The scan for markers from the left: what it finds and what it passes over.
use Prim.Native.Char.{Char}
use spanalyzer.Prelude.{String, List, [], ◌∷◌, string_eq}
use spanalyzer.PlanContract.Target.{◌+++◌}
use spanalyzer.OptParam.Markers.{Marker}
use spanalyzer.OptParam.Markers.Laws.{show_marker, show_found}
use spanalyzer.OptParam.Markers.Complete.{Lacks, IsMarker, Begins}

-- A marker that is written well, with a body as short as possible.
abbrev pub IsFound : Marker → Type 0
IsFound m = IsMarker m × Lacks "/*?end*/" m.body

-- No marker begins within the first text, where the second follows it.
abbrev pub NoneIn : String → String → Type 0
NoneIn String.[] behind = Unit
NoneIn (String.◌∷◌ c s) behind = (Begins (String.◌∷◌ c s +++ behind) → ⊥) × NoneIn s behind

-- Each text before a marker has none of its own, nor has the text behind the last one.
abbrev pub Leftmost : List (String × Marker) → String → Type 0
Leftmost [] tail = NoneIn tail ""
Leftmost ((before, m) ∷ found) tail =
    NoneIn before (show_marker m +++ show_found found tail) × (IsFound m × Leftmost found tail)
