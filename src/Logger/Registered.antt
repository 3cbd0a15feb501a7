-- ===== src/Logger/Registered.antt =====
-- What a registration did, by what it returned.
use gamegine.Common.{
  ℕ, inl, inr, Option, none, some, List, ◌≡◌, sym, ap, ◌∙◌, Text, get_elem?, set, subst,
}
use gamegine.Error.{Error}
use gamegine.Error.Outcome.{Result, value, unexpected}
use gamegine.Logger.Producer
use gamegine.Logger.Producer.{Phase, Producer, k_max_threads, register_current_thread}
use gamegine.Logger.Ledger.{register_current_thread_lem}

-- What a registration that succeeds did.
abbrev pub Claimed : List (Option Producer) → Text → ℕ → List (Option Producer) → Type 0
Claimed slots name i slots' =
    (get_elem? slots i ≡ some none) × (slots' ≡ set slots i (some (Producer.make name)))

pub registers-Claimed :
    (slots : List (Option Producer)) (name : Text) (i : ℕ) (slots' : List (Option Producer))
    → register_current_thread slots name ≡ (value i, slots')
    → Claimed slots name i slots'
registers-Claimed slots name i slots' e = elim (register_current_thread_lem slots name) [
  | inl (_, failed) ↦
      (let both = ap (λ (t : Result ℕ × List (Option Producer)). t.0) (sym failed ∙ e) in
        absurd (cc both))
  | inr (j, _, free, done) ↦
      let first = ap (λ (t : Result ℕ × List (Option Producer)). t.0) (sym done ∙ e) in
      let second = ap (λ (t : Result ℕ × List (Option Producer)). t.1) (sym done ∙ e) in
      let same : j ≡ i = cc first in
      (
        subst (λ k. get_elem? slots k ≡ some none) same free,
        sym second ∙ ap (λ k. set slots k (some (Producer.make name))) same,
      )
]

pub refused-kept :
    (slots : List (Option Producer)) (name : Text) (err : Error) (slots' : List (Option Producer))
    → register_current_thread slots name ≡ (unexpected err, slots')
    → slots' ≡ slots
refused-kept slots name err slots' e = elim (register_current_thread_lem slots name) [
  | inl (_, failed) ↦ ap (λ (t : Result ℕ × List (Option Producer)). t.1) (sym e ∙ failed)
  | inr (j, _, free, done) ↦
      (let both = ap (λ (t : Result ℕ × List (Option Producer)). t.0) (sym done ∙ e) in
        absurd (cc both))
]
