-- ===== src/Params/Tests.antt =====
-- Runs of ukernel/params.c on the command lines of its documentation, and its theorems at inputs
-- that meet their hypotheses.
use Prim.Native.Char.{code}
use Prim.Native.String.{String}
use cyanea.Prelude.{ℕ, ◌≡◌, refl, List, [], ◌∷◌, ◌++◌, some, none, arith}
use cyanea.Params.{is_boolean, found, get_option, scan, round, param_get_option}
use cyanea.Params.Buffer.{Within, get_option-Within}
use cyanea.Params.Single.{get_option-single}

abbrev codes : String → List ℕ
codes String.[] = []
codes (String.◌∷◌ c s) = code c ∷ codes s

abbrev cmdline : List ℕ
cmdline = codes "op1=v1 op2=v2 op1=v3 op3"

-- The value of the second `op1`, of `op2`, and a boolean.
documented_runs :
    (get_option (some cmdline) 2048 (codes "op1") 8 ≡ found (some 2) (codes "v3" ++ 0 ∷ []))
    × (get_option (some cmdline) 2048 (codes "op2") 8 ≡ found (some 2) (codes "v2" ++ 0 ∷ []))
    × (get_option (some cmdline) 2048 (codes "op3") 8 ≡ is_boolean [])
    × (get_option (some cmdline) 2048 (codes "op") 8 ≡ found none (0 ∷ []))
unfolding get_option scan round
documented_runs = (refl, refl, refl, refl)

missing_runs : param_get_option none (codes "op1") 8 ≡ (none, [])
unfolding param_get_option get_option
missing_runs = refl

get_option-single_example :
    (get_option (some (codes "op=v1 ")) 2048 (codes "op") 8 ≡ found (some 2) (codes "v1" ++ 0 ∷ []))
    × (get_option (some (codes "op=v1")) 2048 (codes "op") 8
        ≡ found (some 3) (codes "v1" ++ 0 ∷ 0 ∷ []))
get_option-single_example =
    get_option-single b'o' (codes "p") (codes "v1") 2048 8 (omega arith) (omega arith) (omega arith)
      (omega arith)

get_option-Within_example : Within 2 (get_option (some cmdline) 2048 (codes "op1") 2)
get_option-Within_example = get_option-Within cmdline 2048 (codes "op1") 2
