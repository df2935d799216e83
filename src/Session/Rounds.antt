-- ===== src/Session/Rounds.antt =====
-- How FcuSessionController (fcu_session_controller.hpp) and an FCU that obeys meet a demand.
use Prim.Native.String.{String}
use text.Mathlib.Text.{◌==◌ as str_eq}
use text.Mathlib.TextEquality.{eq_iff}
use mowglimavros.Prelude.{
  refl, same, ap, Bool, true, false, ◌≡◌, Option, none, some, arith, inc64, if◌then◌else◌,
  Bool-cases, inl, inr, sym, ◌∙◌,
}
use mowglimavros.Prelude.Int.{ℤ, -ℤ_parts}
use mowglimavros.Session.Controller.{
  Kind, Command, FcuSessionController, is_mode, ready, settle, note_state, observe, tick, choose,
  send, next, complete, current,
}

-- An FCU that carries out a command, acknowledged first.
obey : ℤ → Option Command → FcuSessionController → FcuSessionController
obey now none s = s
obey now (some c) s =
    observe true (if is_mode c.kind then s.armed else c.arm)
      (if is_mode c.kind then c.mode else s.mode) (complete c.serial true now s)

-- One pass of `next` with the services of MODE and ARM there or not and with the caller's permission
-- to arm or without it, and what the FCU makes of its command.
unfoldable pub round : ℤ → Bool → Bool → Bool → FcuSessionController → FcuSessionController
unfolding obey
round now mode_service arm_service allow_arm s =
    let (t, c) = next now mode_service arm_service allow_arm s in obey now c t

-- Both services are there, and arming is permitted if it is demanded.
pub record Served (mode_service arm_service allow_arm : Bool) (s : FcuSessionController)
    : Type 0 where
  pub mode_there : mode_service ≡ true
  pub arm_there : arm_service ≡ true
  pub may_arm : s.wanted_arm ≡ true → allow_arm ≡ true

-- Nothing is in the way of the demand.
pub record Cooperative (s : FcuSessionController) : Type 0 where
  pub link : s.connected ≡ true
  pub idle : s.pending ≡ none
  pub mode_open : s.mode_failed ≡ false
  pub arm_open : s.arm_failed ≡ false
  pub no_safety : s.safety_disarm ≡ false

next_open :
    (now : ℤ) (ms ar al : Bool) (s : FcuSessionController)
    → Cooperative s
    → next now ms ar al s ≡ send now s (choose ms ar al s)
unfolding next tick
next_open now ms ar al s h = ground arith

-- What a round that sends a command leaves behind.
record After (seen : String) (armed : Bool) (s t : FcuSessionController) : Type 0 where
  after_mode : t.mode ≡ seen
  after_armed : t.armed ≡ armed
  same_mode : t.wanted_mode ≡ s.wanted_mode
  same_arm : t.wanted_arm ≡ s.wanted_arm
  open_again : Cooperative t

complete_sent :
    (now : ℤ) (s : FcuSessionController) (k : Kind) (a f : Bool) (c : Command)
    → c ≡ record { serial = inc64 s.serial; kind = k; mode = s.wanted_mode; arm = a }
    → complete c.serial true now (send now s (some (k, a, f))).0
      ≡ settle (record (send now s (some (k, a, f))).0 { acked = true })
unfolding complete send tick current
complete_sent now s k a f c e = ground (arith, -ℤ_parts now now)

-- Acknowledged and then seen, a command is over.
observe_sent :
    (now : ℤ) (s : FcuSessionController) (k : Kind) (a f : Bool)
    → Cooperative s
    → let t = record (send now s (some (k, a, f))).0 { acked = true } in
      let seen = if is_mode k then s.wanted_mode else s.mode in
      let armed = if is_mode k then s.armed else a in
      After seen armed s (observe true armed seen (settle t))
unfolding send settle observe note_state
observe_sent now s k a f h =
    ground (arith, eq_iff s.wanted_mode s.wanted_mode, eq_iff s.mode s.wanted_mode)

obey_sent :
    (now : ℤ) (s : FcuSessionController) (k : Kind) (a f : Bool)
    → let t = (send now s (some (k, a, f))).0 in
      obey now (send now s (some (k, a, f))).1 t
      ≡ observe true
          (if is_mode k then s.armed else a)
          (if is_mode k then s.wanted_mode else s.mode)
          (settle (record t { acked = true }))
unfolding obey send
obey_sent now s k a f =
    ap
      (observe true (if is_mode k then s.armed else a)
        (if is_mode k then s.wanted_mode else s.mode))
      (complete_sent now s k a f _ refl)

round_sends :
    (now : ℤ) (ms ar al : Bool) (s : FcuSessionController) (k : Kind) (a f : Bool)
    → Cooperative s
    → choose ms ar al s ≡ some (k, a, f)
    → After
        (if is_mode k then s.wanted_mode else s.mode)
        (if is_mode k then s.armed else a)
        s
        (round now ms ar al s)
unfolding round
round_sends now ms ar al s k a f h e =
    let sent : next now ms ar al s ≡ send now s (some (k, a, f)) =
      rw (next_open now ms ar al s h, e) in
    rw sent (rw (obey_sent now s k a f) (observe_sent now s k a f h))

round_rests :
    (now : ℤ) (ms ar al : Bool) (s : FcuSessionController)
    → Cooperative s
    → choose ms ar al s ≡ none
    → round now ms ar al s ≡ s
unfolding round obey send
round_rests now ms ar al s h e =
    let rest : next now ms ar al s ≡ (s, none) = rw (next_open now ms ar al s h, e) in rw rest

choose_mode :
    (ms ar al : Bool) (s : FcuSessionController)
    → Cooperative s
    → ms ≡ true
    → str_eq s.mode s.wanted_mode ≡ false
    → choose ms ar al s ≡ some (Kind.mode, false, s.force_disarm)
unfolding choose
choose_mode ms ar al s h v m = ground arith

choose_arm :
    (ms ar al : Bool) (s : FcuSessionController)
    → Cooperative s
    → Served ms ar al s
    → str_eq s.mode s.wanted_mode ≡ true
    → choose ms ar al s
      ≡ (if same s.armed s.wanted_arm then none else some (Kind.arm, s.wanted_arm, s.force_disarm))
unfolding choose
choose_arm ms ar al s h v m = ground arith

-- In the demanded mode one round meets the demand, and nothing gets in the way.
record Met (w : Bool) (t : FcuSessionController) : Type 0 where
  met : ready t ≡ true
  in_mode : str_eq t.mode t.wanted_mode ≡ true
  open_still : Cooperative t
  wanted : t.wanted_arm ≡ w

round_armed :
    (now : ℤ) (ms ar al : Bool) (s : FcuSessionController)
    → Cooperative s
    → Served ms ar al s
    → str_eq s.mode s.wanted_mode ≡ true
    → Met s.wanted_arm (round now ms ar al s)
unfolding ready
round_armed now ms ar al s h v m = elim (Bool-cases (same s.armed s.wanted_arm)) [
  | inl met ↦
      rw (round_rests now ms ar al s h (rw (choose_arm ms ar al s h v m, met))) (ground arith)
  | inr unmet ↦
      let r =
        round_sends now ms ar al s Kind.arm s.wanted_arm s.force_disarm h
          (rw (choose_arm ms ar al s h v m, unmet)) in
      let t = round now ms ar al s in
      ground (arith, r, eq_iff s.mode s.wanted_mode, eq_iff t.mode t.wanted_mode)
]

wanted-Served :
    (ms ar al : Bool) (s t : FcuSessionController)
    → Served ms ar al s
    → t.wanted_arm ≡ s.wanted_arm
    → Served ms ar al t
wanted-Served ms ar al s t v e = record {
  mode_there = v.mode_there;
  arm_there = v.arm_there;
  may_arm = λ w. v.may_arm (sym e ∙ w);
}

-- From any state with a live link, nothing pending, no failure noted and no safety disarm, with the
-- MODE and the ARM service there and, where arming is demanded, with the caller's permission to arm,
-- an FCU that acknowledges each command and then shows its effect meets the demand in two rounds.
pub round_ready :
    (now later : ℤ) (ms ar al : Bool) (s : FcuSessionController)
    → Cooperative s
    → Served ms ar al s
    → ready (round later ms ar al (round now ms ar al s)) ≡ true
round_ready now later ms ar al s h v =
    let t = round now ms ar al s in
    elim (Bool-cases (str_eq s.mode s.wanted_mode)) [
      | inl m ↦
          let q = round_armed now ms ar al s h v m in
          (round_armed later ms ar al t q.open_still (wanted-Served ms ar al s t v q.wanted)
            q.in_mode).met
      | inr m ↦
          let r =
            round_sends now ms ar al s Kind.mode false s.force_disarm h
              (choose_mode ms ar al s h v.mode_there m) in
          (round_armed later ms ar al t r.open_again (wanted-Served ms ar al s t v r.same_arm)
            (ground (arith, r, eq_iff t.mode t.wanted_mode))).met
    ]
