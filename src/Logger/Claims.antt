-- ===== src/Logger/Claims.antt =====
-- Registrations beside one another and beside the logger thread: each compare-exchange of a slot in
-- `register_current_thread`, and each store of null by `drain`, is a step.
use gamegine.Common.{ℕ, ◌+◌, Option, none, some, List, ◌∷◌, ◌++◌, ◌≡◌, get_elem?, set}

-- Where a registration stands: at a slot, done with the slot that it took, without one, or with its
-- producer freed.
pub data Place : Type 0 where
  trying : ℕ → Place
  got : ℕ → Place
  no_slot : Place
  freed : Place

-- A call of `register_current_thread`, with the pointer to its producer.
pub record Attempt (A : Type 0) : Type 0 where
  pub producer : A
  pub place : Place

pub record Table (A : Type 0) : Type 0 where
  pub slots : List (Option A)
  pub attempts : List (Attempt A)

module _ {A : Type 0} where
  abbrev pub at_place : A → Place → Attempt A
  at_place p place = record { producer = p; place = place }

  pub data Step : Table A → Table A → Type 0 where
    enters :
        (slots : List (Option A)) (attempts : List (Attempt A)) (p : A)
        → Step
            (record { slots = slots; attempts = attempts })
            (record { slots = slots; attempts = at_place p (trying 0) ∷ attempts })
    takes :
        (slots : List (Option A)) (before after : List (Attempt A)) (p : A) (i : ℕ)
        → get_elem? slots i ≡ some none
        → Step
            (record { slots = slots; attempts = before ++ (at_place p (trying i) ∷ after) })
            (record {
              slots = set slots i (some p);
              attempts = before ++ (at_place p (got i) ∷ after);
            })
    finds_taken :
        (slots : List (Option A)) (before after : List (Attempt A)) (p q : A) (i : ℕ)
        → get_elem? slots i ≡ some (some q)
        → Step
            (record { slots = slots; attempts = before ++ (at_place p (trying i) ∷ after) })
            (record { slots = slots; attempts = before ++ (at_place p (trying (i + 1)) ∷ after) })
    gives_up :
        (slots : List (Option A)) (before after : List (Attempt A)) (p : A) (i : ℕ)
        → get_elem? slots i ≡ none
        → Step
            (record { slots = slots; attempts = before ++ (at_place p (trying i) ∷ after) })
            (record { slots = slots; attempts = before ++ (at_place p no_slot ∷ after) })
    frees :
        (slots : List (Option A)) (before after : List (Attempt A)) (p : A) (i : ℕ)
        → Step
            (record { slots = slots; attempts = before ++ (at_place p (got i) ∷ after) })
            (record { slots = set slots i none; attempts = before ++ (at_place p freed ∷ after) })

  pub data Run (s : Table A) : Table A → Type 0 where
    stop : Run s s
    step_on : (s' s2 : Table A) → Run s s' → Step s' s2 → Run s s2
