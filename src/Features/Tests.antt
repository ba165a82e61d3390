-- ===== src/Features/Tests.antt =====
-- The cache of features at a concrete run.
use blend_posv.Prelude.{◌≡◌, refl, Bool, true, false, none, some, [], ◌∷◌, In, or_else}
use blend_posv.Text.{Text, codes}
use blend_posv.Dict.{Dict, lookup}
use blend_posv.Features.{empty_cache, ensure_features, answered, snapshot}
use blend_posv.Features.Granted.{Run, start, asks, gets, Run-enabled}

abbrev with_ai : Dict Bool
with_ai = (codes "ai", true) ∷ []

-- The tenant changes while a request is on its way, and both answers arrive.
switched : Run ((codes "b", with_ai) ∷ (codes "a", []) ∷ []) (
    answered (codes "b") (some with_ai) (
      answered
        (codes "a")
        none
        (ensure_features (some (codes "b")) (ensure_features (some (codes "a")) empty_cache).0).0))
switched =
    gets (gets (asks (asks start (some (codes "a"))) (some (codes "b"))) (codes "a") none)
      (codes "b") (some with_ai)

Run-enabled_example :
    (fs : Dict Bool) × In {A = Text × Dict Bool}
      (codes "b", fs)
      ((codes "b", with_ai) ∷ (codes "a", []) ∷ [])
    × (or_else (lookup (codes "ai") fs) false ≡ true)
unfolding snapshot answered
Run-enabled_example = Run-enabled (codes "ai") (codes "b") true switched refl
