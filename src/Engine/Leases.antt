-- ===== src/Engine/Leases.antt =====
-- Who may feed ObservationEngine (observation_engine.cpp): the lease of the COMMON producer.
use mowglimavros.Prelude.{
  ℕ, Bool, true, false, not, ◌≡◌, arith, refl, List, if_both, [], ◌∷◌, Option, some, none, ◌∙◌,
  ◌==◌,
}
use mowglimavros.Prelude.Int.{ℤ, ltb_ℤ}
use mowglimavros.Prelude.Double.{Double}
use mowglimavros.Wheel.Data.{WheelObservation}
use mowglimavros.Engine.Data.{ObservationEngine, CommonStatusPacket, CommonInfoPacket}
use mowglimavros.Engine.Config.{fresh}
use mowglimavros.Engine.State.{receive_clock, accept_common_status, accept_common_info}
use mowglimavros.Engine.Common.{common_status, accepted_status}
use mowglimavros.Engine.Info.{common_info, accepted_info}
use mowglimavros.Engine.Calls.{
  Call, connects, polls, statuses, informs, counts_escs, turns, moves, reconfigures, step, run,
  outputs,
}

-- A COMMON packet of another component than the one that holds the lease.
abbrev pub foreign : {F : Type 0} → ℕ → Call F → Bool
foreign held (statuses p) = not (held == p.component_id)
foreign held (informs p) = not (held == p.component_id)
foreign held _ = false

module _ (D : Double) where
  open D use {F}

  -- Only packets of other components come, in order of time, and the owner has reported within the
  -- time-out of each of them.
  abbrev pub Leased : ℕ → List (ℤ × Call F) → ObservationEngine F → Type 0
  Leased held [] s = Unit {0}
  Leased held ((now, c) ∷ cs) s =
      (foreign held c ≡ true)
      × (ltb_ℤ now s.last_receipt_ns ≡ false)
      × (fresh D s.common_owner_stamp_ns now s ≡ true)
      × Leased held cs (step D now c s).0

  -- Only the time of the last receipt has changed, and nothing is published.
  pub record Undisturbed (s : ObservationEngine F)
      (r : ObservationEngine F × Option (WheelObservation F)) : Type 0 where
    pub last : ℤ
    pub state : r.0 ≡ record s { last_receipt_ns = last }
    pub silent : r.1 ≡ none

  receive_clock_later :
      (now : ℤ) (s : ObservationEngine F)
      → ltb_ℤ now s.last_receipt_ns ≡ false
      → receive_clock D now s ≡ record s { last_receipt_ns = now }
  unfolding receive_clock
  receive_clock_later now s l = rw l refl

  accept_common_status_leased :
      (held id : ℕ) (now : ℤ) (s : ObservationEngine F)
      → s.common_component ≡ some held
      → s.common_status_owner ≡ true
      → (not (held == id)) ≡ true
      → fresh D s.common_owner_stamp_ns now s ≡ true
      → accept_common_status D id now s ≡ none
  unfolding accept_common_status
  accept_common_status_leased held id now s c o f h = ground arith

  accept_common_info_leased :
      (held id : ℕ) (s : ObservationEngine F)
      → s.common_component ≡ some held
      → s.common_status_owner ≡ true
      → (not (held == id)) ≡ true
      → accept_common_info D id s ≡ none
  unfolding accept_common_info
  accept_common_info_leased held id s c o f = ground arith

  same-Undisturbed : (s : ObservationEngine F) → Undisturbed s (s, none)
  same-Undisturbed s = record { last = s.last_receipt_ns; state = refl; silent = refl }

  later-Undisturbed :
      (now : ℤ) (s : ObservationEngine F) → Undisturbed s (record s { last_receipt_ns = now }, none)
  later-Undisturbed now s = record { last = now; state = refl; silent = refl }

  accepted_status-Undisturbed :
      (p : CommonStatusPacket F) (now : ℤ) (s t : ObservationEngine F)
      (a : Option (ObservationEngine F))
      → t ≡ record s { last_receipt_ns = now }
      → a ≡ none
      → Undisturbed s (accepted_status D p now t a)
  accepted_status-Undisturbed p now s t a e n = rw (n, e) (later-Undisturbed now s)

  accepted_info-Undisturbed :
      (p : CommonInfoPacket) (now : ℤ) (s t : ObservationEngine F)
      (a : Option (ObservationEngine F))
      → t ≡ record s { last_receipt_ns = now }
      → a ≡ none
      → Undisturbed s (accepted_info D p now t a, none)
  accepted_info-Undisturbed p now s t a e n = rw (n, e) (later-Undisturbed now s)

  refused_status_leased :
      (held : ℕ) (p : CommonStatusPacket F) (now : ℤ) (s t : ObservationEngine F)
      → t ≡ record s { last_receipt_ns = now }
      → s.common_component ≡ some held
      → s.common_status_owner ≡ true
      → (not (held == p.component_id)) ≡ true
      → fresh D s.common_owner_stamp_ns now s ≡ true
      → accept_common_status D p.component_id now t ≡ none
  unfolding fresh
  refused_status_leased held p now s t e c o f h = rw e (
      accept_common_status_leased held p.component_id now (record s { last_receipt_ns = now }) c o f
        h)

  refused_info_leased :
      (held : ℕ) (p : CommonInfoPacket) (now : ℤ) (s t : ObservationEngine F)
      → t ≡ record s { last_receipt_ns = now }
      → s.common_component ≡ some held
      → s.common_status_owner ≡ true
      → (not (held == p.component_id)) ≡ true
      → accept_common_info D p.component_id t ≡ none
  refused_info_leased held p now s t e c o f =
      rw e
        (accept_common_info_leased held p.component_id (record s { last_receipt_ns = now }) c o f)

  common_status-Undisturbed :
      (held : ℕ) (p : CommonStatusPacket F) (now : ℤ) (s : ObservationEngine F)
      → s.common_component ≡ some held
      → s.common_status_owner ≡ true
      → (not (held == p.component_id)) ≡ true
      → ltb_ℤ now s.last_receipt_ns ≡ false
      → fresh D s.common_owner_stamp_ns now s ≡ true
      → Undisturbed s (common_status D p now s)
  unfolding common_status fresh
  common_status-Undisturbed held p now s c o f l h =
      if_both (Undisturbed s) _ (same-Undisturbed s) (
        accepted_status-Undisturbed p now s (receive_clock D now s) _ (receive_clock_later now s l)
          (refused_status_leased held p now s (receive_clock D now s) (receive_clock_later now s l)
            c o f h))

  common_info-Undisturbed :
      (held : ℕ) (p : CommonInfoPacket) (now : ℤ) (s : ObservationEngine F)
      → s.common_component ≡ some held
      → s.common_status_owner ≡ true
      → (not (held == p.component_id)) ≡ true
      → ltb_ℤ now s.last_receipt_ns ≡ false
      → Undisturbed s (common_info D p now s, none)
  unfolding common_info
  common_info-Undisturbed held p now s c o f l =
      if_both (λ u. Undisturbed s (u, none)) _ (same-Undisturbed s)
        (accepted_info-Undisturbed p now s (receive_clock D now s) _ (receive_clock_later now s l) (
          refused_info_leased held p now s (receive_clock D now s) (receive_clock_later now s l) c o
            f))

  step-Undisturbed :
      (held : ℕ) (c : Call F) (now : ℤ) (s : ObservationEngine F)
      → s.common_component ≡ some held
      → s.common_status_owner ≡ true
      → foreign held c ≡ true
      → ltb_ℤ now s.last_receipt_ns ≡ false
      → fresh D s.common_owner_stamp_ns now s ≡ true
      → Undisturbed s (step D now c s)
  unfolding step
  step-Undisturbed held (statuses p) now s c o f l h =
      common_status-Undisturbed held p now s c o f l h
  step-Undisturbed held (informs p) now s c o f l h = common_info-Undisturbed held p now s c o f l
  step-Undisturbed held (connects b) now s c o f l h = ground arith
  step-Undisturbed held polls now s c o f l h = ground arith
  step-Undisturbed held (counts_escs p) now s c o f l h = ground arith
  step-Undisturbed held (turns a b) now s c o f l h = ground arith
  step-Undisturbed held (moves p) now s c o f l h = ground arith
  step-Undisturbed held (reconfigures config retain) now s c o f l h = ground arith

  owner-Undisturbed :
      (s : ObservationEngine F) (r : ObservationEngine F × Option (WheelObservation F))
      → Undisturbed s r
      → (r.0.common_component ≡ s.common_component)
        × (r.0.common_status_owner ≡ s.common_status_owner)
  owner-Undisturbed s r u = (rw u.state refl, rw u.state refl)

  -- While the component that holds the COMMON lease has reported within the time-out, no list of
  -- packets of other components, in order of time, changes anything but the time of the last
  -- receipt, and nothing is published for them.
  pub run-Leased :
      (held : ℕ) (cs : List (ℤ × Call F)) (s : ObservationEngine F)
      → s.common_component ≡ some held
      → s.common_status_owner ≡ true
      → Leased held cs s
      → ((last : ℤ) × (run D cs s ≡ record s { last_receipt_ns = last })) × (outputs D cs s ≡ [])
  unfolding run outputs
  run-Leased held [] s c o h = ((s.last_receipt_ns, refl), refl)
  run-Leased held ((now, call) ∷ cs) s c o (f, l, g, h) =
      let r = step D now call s in
      let u = step-Undisturbed held call now s c o f l g in
      let (k, w) = owner-Undisturbed s r u in
      let ((last, e), q) = run-Leased held cs r.0 (k ∙ c) (w ∙ o) h in
      ((last, rw (e, u.state) refl), rw (u.silent, q) refl)
