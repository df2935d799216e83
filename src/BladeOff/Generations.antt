-- ===== src/BladeOff/Generations.antt =====
-- Replies and connections of BladeOffControl (blade_off_control.hpp).
use mowglimavros.Prelude.{
  if◌then◌else◌, ℕ, zero, suc, Bool, false, ◌≡◌, ◌≢◌, ◌<◌, ◌^◌, ◌+◌, ◌%◌, refl, arith,
}
use mowglimavros.BladeOff.{
  Decision, send_neutral, already_accepted, pending, BladeOffControl, decide, begin, complete,
  reset_connection,
}

-- The state after a number of reconnections.
pub resets : ℕ → BladeOffControl → BladeOffControl
resets zero s = s
resets (suc n) s = reset_connection (resets n s)

generation-resets :
    (n : ℕ) (s : BladeOffControl)
    → s.generation < 2 ^ 64
    → (resets n s).generation ≡ (s.generation + n) % 2 ^ 64
unfolding resets reset_connection
generation-resets zero s w = omega arith
generation-resets (suc n) s w = omega (arith, generation-resets n s w)

other_generation : (g : ℕ) (b : Bool) (s : BladeOffControl) → g ≢ s.generation → complete g b s ≡ s
unfolding complete
other_generation g b s n = ground arith

settled :
    (a : Bool) (t : BladeOffControl)
    → decide false (complete t.generation a (record t { state = pending }))
      ≡ (if a then already_accepted else Decision.failed)
unfolding decide complete
settled a t = ground arith

-- The reply to a neutral that was begun on an earlier connection cannot settle the neutral of the
-- present one: after at least one and fewer than 2 ^ 64 resets a neutral is to be sent, and once it is
-- begun the earlier reply changes nothing, while the first of its own replies decides.
pub complete_earlier :
    (n : ℕ) (a b : Bool) (s : BladeOffControl)
    → s.generation < 2 ^ 64
    → suc n < 2 ^ 64
    → let t = resets (suc n) (begin s).0 in
      let u = (begin t).0 in
      (decide false t ≡ send_neutral)
      × (complete (begin s).1 b u ≡ u)
      × (decide false (complete (begin t).1 a (complete (begin s).1 b u))
          ≡ (if a then already_accepted else Decision.failed))
unfolding begin
complete_earlier n a b s w k =
    let t = resets (suc n) (record s { state = pending }) in
    let u = record t { state = pending } in
    let g = generation-resets (suc n) (record s { state = pending }) w in
    let same : complete s.generation b u ≡ u =
      other_generation s.generation b u (λ e. omega (arith, g, e)) in
    (unfold decide resets reset_connection in refl, same, rw same (settled a t))

-- Within one connection the first reply settles the command, and a second one changes nothing.
pub complete_once :
    (a b : Bool) (s : BladeOffControl)
    → let t = complete (begin s).1 a (begin s).0 in
      (decide false t ≡ (if a then already_accepted else Decision.failed))
      × (complete (begin s).1 b t ≡ t)
unfolding begin decide complete
complete_once a b s = (ground arith, ground arith)
