-- ===== src/Logger/ClaimRuns.antt =====
-- The loop of `register_current_thread`, while nothing else happens, is a run of compare-exchanges.
use gamegine.Common.{
  ℕ, suc, ◌+◌, Option, none, some, List, [], ◌∷◌, ◌++◌, ◌≡◌, refl, ap, arith, length, length-append,
  append_assoc, append-nil, get_elem?, set,
}
use gamegine.Logger.Producer.{Producer, claim}
use gamegine.Logger.Claims.{
  Place, trying, got, no_slot, Attempt, Table, at_place, takes, finds_taken, gives_up, Run, stop,
  step_on,
}

get_front :
    {A : Type 0} (front : List A) (x : A) (rest : List A)
    → get_elem? (front ++ (x ∷ rest)) (length front) ≡ some x
get_front [] x rest = refl
get_front (y ∷ front) x rest = get_front front x rest

get_end : {A : Type 0} (front : List A) → get_elem? front (length front) ≡ none
get_end [] = refl
get_end (y ∷ front) = get_end front

set_front :
    {A : Type 0} (front : List A) (x y : A) (rest : List A)
    → set (front ++ (x ∷ rest)) (length front) y ≡ front ++ (y ∷ rest)
set_front [] x y rest = refl
set_front (z ∷ front) x y rest = ap (λ l. z ∷ l) (set_front front x y rest)

-- Where a registration stands behind the loop, from the slot with this number on.
abbrev pub outcome : ℕ → Option ℕ → Place
outcome i none = no_slot
outcome i (some j) = got (i + j)

outcome_next :
    (i : ℕ) (taken : Option ℕ)
    → outcome i (elim taken as (λ _. Option ℕ) [ none ↦ none | some j ↦ some (suc j) ])
      ≡ outcome (i + 1) taken
outcome_next i none = refl
outcome_next i (some j) = ap got (omega arith)

module _ (before after : List (Attempt Producer)) (p : Producer) where
  abbrev pub table : List (Option Producer) → Place → Table Producer
  table slots place = record { slots = slots; attempts = before ++ (at_place p place ∷ after) }

  claim_runs_from :
      (s : Table Producer) (front slots : List (Option Producer))
      → Run s (table (front ++ slots) (trying (length front)))
      → Run s (table (front ++ (claim slots p).1) (outcome (length front) (claim slots p).0))
  unfolding claim
  claim_runs_from s front [] run =
      step_on _ _ run (
        gives_up (front ++ []) before after p (length front)
          (rw (append-nil front) (get_end front)))
  claim_runs_from s front (none ∷ slots) run =
      let next = step_on _ _ run (
        takes (front ++ (none ∷ slots)) before after p (length front)
          (get_front front none slots)) in
      let here : length front + 0 ≡ length front = omega arith in
      rw here (rw (set_front front none (some p) slots) at next)
  claim_runs_from s front (some q ∷ slots) run =
      let next = step_on _ _ run (
        finds_taken (front ++ (some q ∷ slots)) before after p q (length front)
          (get_front front (some q) slots)) in
      let longer : length (front ++ (some q ∷ [])) ≡ length front + 1 =
        length-append front (some q ∷ []) in
      let ahead : Run s
          (table ((front ++ (some q ∷ [])) ++ slots) (trying (length (front ++ (some q ∷ []))))) =
        rw (longer, append_assoc front (some q ∷ []) slots) next in
      let rest = claim_runs_from s (front ++ (some q ∷ [])) slots ahead in
      rw (outcome_next (length front) (claim slots p).0)
        (rw (longer, append_assoc front (some q ∷ []) (claim slots p).1) at rest)

  -- Of any slots, the loop of `register_current_thread`, while no other thread does anything, is a
  -- run of its compare-exchanges, to the slots that it leaves and to the slot that it returns or to
  -- none.
  pub claim_runs :
      (slots : List (Option Producer))
      → Run (table slots (trying 0)) (table (claim slots p).1 (outcome 0 (claim slots p).0))
  claim_runs slots = claim_runs_from (table slots (trying 0)) [] slots stop
