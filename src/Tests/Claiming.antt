-- ===== src/Tests/Claiming.antt =====
-- Two threads that register at once, and one whose slots are all taken but the last.
use gamegine.Common.{ℕ, none, some, [], ◌∷◌, ◌≡◌, refl, get_elem?, codes}
use mathlib.Core.Logic.{◌≢◌}
use gamegine.Logger.Producer
use gamegine.Logger.Producer.{Producer, claim}
use gamegine.Logger.Claims.{
  trying, got, Table, at_place, enters, takes, finds_taken, Run, stop, step_on,
}
use gamegine.Logger.Claimed.{start, claims_apart}
use gamegine.Logger.ClaimRuns.{outcome, table, claim_runs}

-- The second comes to slot 0 before the first takes it, and finds it taken then.
abbrev both_tried : Table ℕ
both_tried = record {
  slots = none ∷ none ∷ [];
  attempts = at_place 8 (trying 0) ∷ at_place 7 (trying 0) ∷ [];
}

abbrev one_took : Table ℕ
one_took = record {
  slots = some 7 ∷ none ∷ [];
  attempts = at_place 8 (trying 0) ∷ at_place 7 (got 0) ∷ [];
}

abbrev one_went_on : Table ℕ
one_went_on = record one_took { attempts = at_place 8 (trying 1) ∷ at_place 7 (got 0) ∷ [] }

abbrev both_took : Table ℕ
both_took = record {
  slots = some 7 ∷ some 8 ∷ [];
  attempts = at_place 8 (got 1) ∷ at_place 7 (got 0) ∷ [];
}

abbrev one_tried : Table ℕ
one_tried = record both_tried { attempts = at_place 7 (trying 0) ∷ [] }

both_took-Run : Run (start 2) both_took
both_took-Run =
    step_on one_went_on both_took
      (step_on one_took one_went_on
        (step_on both_tried one_took
          (step_on one_tried both_tried
            (step_on (start 2) one_tried stop (enters (none ∷ none ∷ []) [] 7))
            (enters (none ∷ none ∷ []) (at_place 7 (trying 0) ∷ []) 8))
          (takes (none ∷ none ∷ []) (at_place 8 (trying 0) ∷ []) [] 7 0 refl))
        (finds_taken (some 7 ∷ none ∷ []) [] (at_place 7 (got 0) ∷ []) 8 7 0 refl))
      (takes (some 7 ∷ none ∷ []) [] (at_place 7 (got 0) ∷ []) 8 1 refl)

claims_apart_example :
    (◌≢◌ {A = ℕ} 1 0)
    × (get_elem? both_took.slots 1 ≡ some (some 8))
    × (get_elem? both_took.slots 0 ≡ some (some 7))
claims_apart_example = claims_apart 2 both_took [] [] [] 8 7 1 0 both_took-Run refl

abbrev held : Producer
held = Producer.make (codes "render")

abbrev fresh_one : Producer
fresh_one = Producer.make (codes "audio")

claim_runs_example : Run (table [] [] fresh_one (some held ∷ none ∷ []) (trying 0)) (
    table [] [] fresh_one
      (claim (some held ∷ none ∷ []) fresh_one).1
      (outcome 0 (claim (some held ∷ none ∷ []) fresh_one).0))
claim_runs_example = claim_runs [] [] fresh_one (some held ∷ none ∷ [])
