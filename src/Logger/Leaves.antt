-- ===== src/Logger/Leaves.antt =====
-- How the records of a watched thread move on when its handle is destroyed and when a pass comes.
use gamegine.Common.{
  ℕ, ◌+◌, ◌-◌, inl, inr, Bool-cases, Option, none, some, List, ◌++◌, ◌≡◌, refl, sym, ap, ◌∙◌, arith,
  get_elem?, take, ◌==◌, append-nil,
}
use gamegine.LogRecord.{LogRecord}
use gamegine.Logger.Producer.{Producer, close}
use gamegine.Logger.Handle
use gamegine.Logger.Handle.{Handle, at_slot}
use gamegine.Logger.Drained.{waiting}
use gamegine.Logger.Slots.{at_slot_self, at_slot_other}
use gamegine.Logger.Told.{Remains, stays, freed}
use gamegine.Logger.Watch.{Watch, is_watched, note_close}
use gamegine.Logger.Position.{Held, Standing, Position, opened, closing, finished, kept-Held}

module _ (w : Watch) (slots : List (Option Producer)) (told : List LogRecord) (lost : ℕ) where
  close-Held :
      (w' : Watch) (i : ℕ) (p : Producer)
      → w'.name ≡ w.name
      → w'.accepted ≡ w.accepted
      → w'.lost ≡ w.lost
      → Held w slots told lost i p
      → Held w' (at_slot close slots i) told lost i (close p)
  unfolding close
  close-Held w' i p name accepted losses h = record {
    holds = at_slot_self close slots i p h.holds;
    name = h.name ∙ ap (take 16) (sym name);
    records = h.records ∙ sym accepted;
    losses = h.losses ∙ sym losses;
  }

  close_at-Position :
      (j : ℕ)
      → Position w slots told lost
      → Position (note_close (is_watched (some j) w.open_slot) w) (at_slot close slots j) told lost
  unfolding close
  close_at-Position j (opened i p h o phase) = elim (Bool-cases (j == i)) [
    | inl mine ↦
        let same : j ≡ i = ground arith in
        let watched = ap (is_watched (some j)) o ∙ mine in
        let w' : Watch = record w { open_slot = none } in
        rw (watched, same) (closing i (close p) (close-Held w' i p refl refl refl h) refl refl)
    | inr other ↦
        let unwatched = ap (is_watched (some j)) o ∙ other in
        let kept =
          kept-Held w slots told lost (at_slot close slots j) i p h
            (at_slot_other close slots j i other ∙ h.holds) in
        rw unwatched (opened i p kept o phase)
  ]
  close_at-Position j (closing i p h o phase) =
      let unwatched = ap (is_watched (some j)) o in
      elim (Bool-cases (j == i)) [
        | inl mine ↦
            let same : j ≡ i = ground arith in
            rw (unwatched, same) (closing i (close p) (close-Held w i p refl refl refl h) o refl)
        | inr other ↦
            let kept =
              kept-Held w slots told lost (at_slot close slots j) i p h
                (at_slot_other close slots j i other ∙ h.holds) in
            rw unwatched (closing i p kept o phase)
      ]
  close_at-Position j (finished o t l) =
      let unwatched = ap (is_watched (some j)) o in rw unwatched (finished o t l)

  pub close-Position :
      (producer : Option ℕ) (owner : ℕ)
      → Position w slots told lost
      → Position
          (note_close (is_watched producer w.open_slot) w)
          (Handle.destroy (record { producer = producer; owner = owner }) slots)
          told
          lost
  unfolding Handle.destroy
  close-Position none owner position = position
  close-Position (some j) owner position = close_at-Position j position

  -- A pass that tells what waited in the slot.
  pub remains-Position :
      (slots' : List (Option Producer)) (i : ℕ) (p : Producer) (slot : Option Producer)
      → Held w slots told lost i p
      → Standing w i p
      → get_elem? slots' i ≡ some slot
      → Remains p slot
      → Position w slots' (told ++ waiting p) (lost + (p.dropped - p.reported))
  remains-Position slots' i p _ h (inl (o, live)) holds (stays q _ phase name waits reported) =
      opened i q
        (record {
          holds = holds;
          name = name ∙ h.name;
          records =
              ap (λ rs. (told ++ waiting p) ++ rs) waits
              ∙ append-nil (told ++ waiting p)
              ∙ h.records;
          losses = omega (arith, h.losses);
        })
        o phase
  remains-Position slots' i p _ h (inl (o, live)) holds (freed closed) =
      absurd (cc (sym live ∙ closed))
  remains-Position slots' i p _ h (inr (o, closed)) holds (stays q live _ _ _ _) =
      absurd (cc (sym live ∙ closed))
  remains-Position slots' i p _ h (inr (o, closed)) holds (freed _) = finished o h.records h.losses
