-- ===== src/Bridge/Emergency.antt =====
-- What an emergency stop asks of the FCU (mavros_hardware_bridge_node.cpp).
use Prim.Native.String.{String}
use text.Mathlib.TextEquality.{eq_iff}
use mowglimavros.Prelude.{
  ℕ, Bool, true, false, not, ◌&&◌, ◌||◌, ◌≡◌, refl, arith, ◌∙◌, Option, none, some, List, [], ◌∷◌,
  if_both, Bool-cases, inl, inr, subst, sym, if◌then◌else◌,
}
use mowglimavros.Prelude.Int.{ℤ}
use mowglimavros.Safety as Safety
use mowglimavros.Session.Controller as SessionController
use mowglimavros.Session.Controller.{FcuSessionController, Command, is_mode}
use mowglimavros.Bridge.Node.{
  Node, Env, Client, emergency, motion_session_active, publish_neutral_manual_control,
}
use mowglimavros.Bridge.Replies.{cancel_pending_blade_starts}
use mowglimavros.Bridge.Blade.{end_failed_blade_test, end_failed_if, drive_blade}
use mowglimavros.Bridge.Session.{
  holds, mode_for, demand_session, watch_traction, forget_each, forget_session_rpc, requested,
  request_session, drive_session, safety_demand, request_safety_disarm,
}
use mowglimavros.Bridge.Handlers.{on_emergency_stop}
use mowglimavros.Bridge.Still.{
  Kept, starts, test-Still, cancel-Still, force_off-Still, neutral-Still,
}
use mowglimavros.Bridge.Starts.{drive_blade-Kept, emergency-Kept, Safe, silent_starts}
use mowglimavros.Blade.Request.{force_off}
use mowglimavros.Bridge.Still.{trans-Kept}
use mowglimavros.Bridge.Moves.{safety_demand-Still, demand-Still, watch-Still, disarm-Moves}

-- The session demands HOLD and an FCU that is not armed, as a safety demand.
pub record Disarms (s : FcuSessionController) : Type 0 where
  pub disarm : s.safety_disarm ≡ true
  pub no_arm : s.wanted_arm ≡ false
  pub hold : s.wanted_mode ≡ "HOLD"

demand-Disarms :
    (m : String) (b c : Bool) (s : FcuSessionController)
    → m ≡ "HOLD"
    → b ≡ false
    → c ≡ true
    → Disarms (SessionController.demand m b c s)
unfolding SessionController.demand
demand-Disarms m b c s e f g = ground (arith, eq_iff s.wanted_mode m)

tick-Disarms :
    (now : ℤ) (s : FcuSessionController) → Disarms s → Disarms (SessionController.tick now s)
unfolding SessionController.tick SessionController.fail
tick-Disarms now s h = ground arith

next-Disarms :
    (now : ℤ) (ms ar al : Bool) (s : FcuSessionController)
    → Disarms s
    → Disarms (SessionController.next now ms ar al s).0
unfolding SessionController.next SessionController.send
next-Disarms now ms ar al s h = let t = tick-Disarms now s h in ground arith

complete-Disarms :
    (serial : ℕ) (b : Bool) (now : ℤ) (s : FcuSessionController)
    → Disarms s
    → Disarms (SessionController.complete serial b now s)
unfolding SessionController.complete SessionController.fail SessionController.settle
complete-Disarms serial b now s h = let t = tick-Disarms now s h in ground arith

-- An emergency stop of the service holds.
pub record Stopped (s : Safety.SafetyState) : Type 0 where
  pub active : s.service_emergency_active ≡ true
  pub latched : s.service_emergency_latched ≡ true

active-project :
    (now : ℤ) (s : Safety.SafetyState) → Stopped s → (Safety.project now s).active_emergency ≡ true
unfolding Safety.project Safety.source_of
active-project now s h = ground arith

holds-project :
    (now : ℤ) (s : Safety.SafetyState) → Stopped s → holds (Safety.project now s).reason ≡ true
unfolding Safety.project Safety.source_of
holds-project now s h = ground arith

set-Stopped : (s : Safety.SafetyState) → Stopped (Safety.set_service_emergency true s)
unfolding Safety.set_service_emergency
set-Stopped s = record { active = refl; latched = refl }

module _ {F : Type 0} where
  emergency-Stopped : (e : Env) (n : Node F) → Stopped n.safety → emergency e n ≡ true
  unfolding emergency
  emergency-Stopped e n h = rw (active-project e.now n.safety h) refl

  mode-Stopped : (e : Env) (n : Node F) → Stopped n.safety → mode_for e n ≡ "HOLD"
  unfolding mode_for
  mode-Stopped e n h = rw (emergency-Stopped e n h, holds-project e.now n.safety h) refl

  Kept-Stopped : (n m : Node F) → Kept n m → Stopped n.safety → Stopped m.safety
  Kept-Stopped n m k h = subst Stopped (sym k.safety) h

  demand_session-Disarms :
      (e : Env) (n : Node F) → Stopped n.safety → Disarms (demand_session e n).session
  unfolding demand_session
  demand_session-Disarms e n h =
      let stop = emergency e n in
      tick-Disarms e.steady _ (
        demand-Disarms (mode_for e n) (not stop && (motion_session_active n || n.blade_test_active))
          stop n.session (mode-Stopped e n h) (rw (emergency-Stopped e n h) refl)
          (emergency-Stopped e n h))

  session-watch : (e : Env) (n : Node F) → (watch_traction e n).session ≡ n.session
  unfolding watch_traction
  session-watch e n = ground arith

  neutral-Kept :
      (e : Env) (n : Node F)
      → let a = cancel_pending_blade_starts (record n { blade_test_active = false }) in
        Kept n (publish_neutral_manual_control e (record a { blade = force_off e.steady a.blade }))
  neutral-Kept e n =
      let t = record n { blade_test_active = false } in
      let a = cancel_pending_blade_starts t in
      trans-Kept (test-Still false n).kept (
        trans-Kept (cancel-Still t).kept
          (trans-Kept (force_off-Still e.steady a).kept (neutral-Still e _).kept))

  end_failed-Disarms :
      (e : Env) (n : Node F)
      → Stopped n.safety
      → Disarms n.session
      → Disarms (end_failed_blade_test e n).session
  unfolding end_failed_blade_test
  end_failed-Disarms e n h d =
      let t = record n { blade_test_active = false } in
      let a = cancel_pending_blade_starts t in
      let b = publish_neutral_manual_control e (record a { blade = force_off e.steady a.blade }) in
      if_both (λ (x : Node F). Disarms x.session)
        (not n.blade_test_active || motion_session_active n) d
        (demand-Disarms "HOLD" false (emergency e b) b.session refl refl
          (emergency-Kept e n b (neutral-Kept e n) ∙ emergency-Stopped e n h))

  session-forget_each :
      (l : List (ℕ × (Client × ℕ))) (n : Node F) → (forget_each l n).session ≡ n.session
  session-forget_each [] n = refl
  session-forget_each ((serial, (client, id)) ∷ l) n =
      session-forget_each l _
      ∙ if_both (λ (x : Node F). x.session ≡ n.session) (SessionController.current serial n.session)
          refl refl

  arming-Disarms :
      (e : Env) (b : Bool) (n : Node F)
      → Disarms n.session
      → Disarms (if b then publish_neutral_manual_control e n else n).session
  arming-Disarms e b n d =
      if_both (λ (x : Node F). Disarms x.session) b
        (if_both (λ (x : Node F). Disarms x.session) e.guided_velocity_implemented d d) d

  requested-Disarms :
      (e : Env) (r : FcuSessionController × Option Command) (n : Node F)
      → Disarms r.0
      → Disarms (requested e r n).session
  requested-Disarms e (s, none) n d = d
  requested-Disarms e (s, some c) n d =
      if_both (λ (x : Node F). Disarms x.session) e.sends
        (arming-Disarms e (not (is_mode c.kind) && c.arm) (record n { session = s }) d)
        (complete-Disarms c.serial false e.steady s d)

  drive_session-Disarms :
      (e : Env) (n : Node F) → Stopped n.safety → Disarms (drive_session e n).session
  unfolding drive_session request_session forget_session_rpc
  drive_session-Disarms e n h =
      let d = demand_session e n in
      let a = watch_traction e d in
      let b = end_failed_if (SessionController.failed a.session) e a in
      let k = trans-Kept (demand-Still e n).kept (watch-Still e d).kept in
      let da = subst Disarms (sym (session-watch e d)) (demand_session-Disarms e n h) in
      let db =
        if_both (λ (x : Node F). Disarms x.session) (SessionController.failed a.session)
          (end_failed-Disarms e a (Kept-Stopped n a k h) da) da in
      let f = forget_session_rpc b in
      let df = subst Disarms (sym (session-forget_each b.session_rpc_ids _)) db in
      requested-Disarms e _ f (next-Disarms e.steady _ _ _ f.session df)

  unsafe : {P : Type 0} (e : Env) (n : Node F) → Stopped n.safety → Safe e n → P
  unsafe e n h s = let q = emergency-Stopped e n h in let r = s.no_emergency in ground arith

  -- After an emergency stop of the service, whatever the node was doing, its session demands HOLD and
  -- an FCU that is not armed, as a safety demand; and nothing that starts the blade was sent.
  pub emergency_stop-Disarms :
      (e : Env) (n : Node F)
      → starts n.sent ≡ false
      → let m = (on_emergency_stop true e n).0 in Disarms m.session × (starts m.sent ≡ false)
  unfolding on_emergency_stop request_safety_disarm
  emergency_stop-Disarms e n q =
      let s = record n {
        safety = Safety.set_service_emergency true n.safety;
        mow_enabled = false;
      } in
      let d = safety_demand true e s in
      let b = drive_blade e d in
      let h =
        Kept-Stopped s b (trans-Kept (safety_demand-Still true e s).kept (drive_blade-Kept e d))
          (set-Stopped n.safety) in
      let m = drive_session e b in
      let v = disarm-Moves true e s in
      (
        drive_session-Disarms e b h,
        elim (Bool-cases (starts m.sent)) [
          | inr p ↦ p
          | inl p ↦ elim (v.guarded p) [
            | inl o ↦ silent_starts n o q
            | inr x ↦ unsafe e m (Kept-Stopped s m v.kept (set-Stopped n.safety)) x
          ]
        ],
      )
