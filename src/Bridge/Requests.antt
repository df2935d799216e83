-- ===== src/Bridge/Requests.antt =====
-- Every request of ~/mower_control is answered once or kept by the node
-- (mavros_hardware_bridge_node.cpp), whatever callbacks run.
use mowglimavros.Prelude.{
  ℕ, ◌+◌, Bool, true, false, not, ◌&&◌, ◌||◌, ◌≡◌, ◌∙◌, refl, arith, Option, none, some, List, [],
  ◌∷◌, ◌==◌, ltb, leb, if_both, if◌then◌else◌,
}
use mowglimavros.Prelude.Int.{ℤ, leb_ℤ, eqb_ℤ}
use mowglimavros.Blade.Types.{Direction, is}
use mowglimavros.Blade.Request.{force_off, permission}
use mowglimavros.Session.Controller as SessionController
use mowglimavros.Session.Controller.{FcuSessionController, Command, is_mode}
use mowglimavros.Bridge.Node.{
  Node, Output, requests_mode, requests_arm, Env, Client, motion_session_active, emergency, length,
  PendingBladeStart, publish_neutral_manual_control, BladeWireExpectation,
}
use mowglimavros.Bridge.Replies.{cancel_pending_blade_starts, request_blade}
use mowglimavros.Bridge.Blade.{drive_blade, end_failed_if, expire_wire, blade_allowed}
use mowglimavros.Bridge.Session.{
  demand_session, watch_traction, forget_each, forget_session_rpc, requested, request_session,
  drive_session, safety_demand, request_safety_disarm,
}
use mowglimavros.Bridge.Handlers.{
  on_high_level_status, disarm_if, on_sys_status, on_button, stop_blade, start_driven,
  start_refused, head_differs, direction_of, start_blade, on_mower_control, on_emergency_stop,
}
use mowglimavros.Bridge.Telemetry.{claim, claimed, on_blade_wire, on_blade_output}
use mowglimavros.Bridge.Owed.{
  one, about, owed, waiting-append, owed-cancel, owed-neutral, owed-give_up, owed-end_failed,
  owed-end_failed_if, owed-request, owed-drive_blade,
}

module _ {F : Type 0} where
  -- The request `h` is owed as often as before.
  abbrev pub Same : ℕ → Node F → Node F → Type 0
  Same h n m = owed h m ≡ owed h n

  owed-watch : (h : ℕ) (e : Env) (n : Node F) → Same h n (watch_traction e n)
  unfolding watch_traction
  owed-watch h e n =
      let ready =
        motion_session_active n
        && not (emergency e n)
        && SessionController.ready n.session
        && n.session.wanted_arm in
      if_both (λ (x : Node F). Same h n x) (n.traction_was_ready && not ready) (owed-neutral h e n)
        refl

  owed-forget_each : (h : ℕ) (l : List (ℕ × (Client × ℕ))) (n : Node F) → Same h n (forget_each l n)
  owed-forget_each h [] n = refl
  owed-forget_each h ((serial, (client, id)) ∷ l) n =
      owed-forget_each h l _
      ∙ if_both (λ (x : Node F). Same h n x) (SessionController.current serial n.session) refl
          (omega arith)

  owed-requested :
      (h : ℕ) (e : Env) (r : FcuSessionController × Option Command) (n : Node F)
      → Same h n (requested e r n)
  owed-requested h e (s, none) n = refl
  owed-requested h e (s, some c) n =
      let m = record n { session = s } in
      let arms = not (is_mode c.kind) && c.arm in
      let a = if arms then publish_neutral_manual_control e m else m in
      let i : Same h m a = if_both (λ (x : Node F). Same h m x) arms (owed-neutral h e m) refl in
      let w : Output F = if is_mode c.kind then requests_mode c.mode else requests_arm c.arm in
      let o : about h w ≡ 0 =
        if_both (λ (x : Output F). about h x ≡ 0) (is_mode c.kind) refl refl in
      if_both (λ (x : Node F). Same h n x) e.sends (omega arith) i

  pub owed-drive_session : (h : ℕ) (e : Env) (n : Node F) → Same h n (drive_session e n)
  unfolding drive_session demand_session forget_session_rpc request_session
  owed-drive_session h e n =
      let d = demand_session e n in
      let a = watch_traction e d in
      let failing = SessionController.failed a.session in
      let b = end_failed_if failing e a in
      owed-requested h e _ (forget_session_rpc b)
      ∙ owed-forget_each h b.session_rpc_ids (record b { session_rpc_ids = [] })
      ∙ owed-end_failed_if h failing e a
      ∙ owed-watch h e d

  pub owed-drives : (h : ℕ) (e : Env) (n : Node F) → Same h n (drive_blade e (drive_session e n))
  owed-drives h e n = owed-drive_blade h e (drive_session e n) ∙ owed-drive_session h e n

  owed-disarm :
      (h : ℕ) (hold : Bool) (e : Env) (n : Node F) → Same h n (request_safety_disarm hold e n).0
  unfolding request_safety_disarm safety_demand
  owed-disarm h hold e n =
      let s = safety_demand hold e n in
      owed-drive_session h e (drive_blade e s)
      ∙ owed-drive_blade h e s
      ∙ owed-give_up h e (record n { mow_enabled = false })

  pub owed-disarm_if :
      (h : ℕ) (b hold : Bool) (e : Env) (n : Node F) → Same h n (disarm_if b hold e n)
  unfolding disarm_if
  owed-disarm_if h b hold e n = if_both (λ (x : Node F). Same h n x) b (owed-disarm h hold e n) refl

  pub owed-high_level :
      (h state : ℕ) (e : Env) (n : Node F) → Same h n (on_high_level_status state e n)
  unfolding on_high_level_status
  owed-high_level h state e n =
      let m = record n { high_level_state = state } in
      let a = cancel_pending_blade_starts (record m { blade_test_active = false }) in
      let b = publish_neutral_manual_control e (record a { blade = force_off e.steady a.blade }) in
      let k = motion_session_active n && not (motion_session_active m) in
      if_both (λ (x : Node F). Same h n (drive_blade e (drive_session e x))) k
        (owed-drives h e (drive_blade e b) ∙ owed-drive_blade h e b ∙ owed-give_up h e m)
        (owed-drives h e m)

  pub owed-sys_status :
      (h : ℕ) (present enabled : Bool) (e : Env) (n : Node F)
      → Same h n (on_sys_status present enabled e n)
  unfolding on_sys_status
  owed-sys_status h present enabled e n =
      if_both (λ (x : Node F). Same h n x) (not n.connected) refl (owed-disarm_if h _ true e _)

  pub owed-button :
      (h : ℕ) (state : Option ℕ) (e : Env) (n : Node F) → Same h n (on_button state e n)
  unfolding on_button
  owed-button h none e n = refl
  owed-button h (some state) e n =
      if_both (λ (x : Node F). Same h n x) (not n.connected) refl (owed-disarm_if h _ false e _)

  owed-stop :
      (h header : ℕ) (e : Env) (n : Node F)
      → owed h (stop_blade header e n) ≡ owed h n + one h header
  unfolding stop_blade
  owed-stop h header e n =
      let transport = e.ardupilot && e.command_ready in
      let t = cancel_pending_blade_starts n in
      let a = record t { blade_test_active = false } in
      let b = record a {
        session = SessionController.demand "HOLD" false (emergency e a) a.session;
      } in
      let c = record b { blade = permission (blade_allowed e b) e.steady b.blade } in
      let d = if motion_session_active n then a else c in
      let r = request_blade transport header Direction.off e.steady e.steady d in
      let i : Same h t d =
        if_both (λ (x : Node F). Same h t x) (motion_session_active n) refl refl in
      let j = owed-request h transport header Direction.off e.steady e.steady d in
      let k = owed-drive_session h e (drive_blade e r) ∙ owed-drive_blade h e r in
      let l = owed-cancel h n in omega arith

  owed-start_driven :
      (h header : ℕ) (d : Direction) (e : Env) (n : Node F)
      → owed h (start_driven header d e n) ≡ owed h n + one h header
  unfolding start_driven
  owed-start_driven h header d e n =
      let failing =
        SessionController.failed n.session
        || (not (motion_session_active n) && not n.blade_test_active) in
      let m = record n { blade = permission (blade_allowed e n) e.steady n.blade } in
      let q : PendingBladeStart = record {
        header = header;
        direction = d;
        started_ms = e.steady;
      } in
      let i = owed-end_failed h e n in
      let j = waiting-append h n.pending_blade_starts q in
      let P = λ (x : Node F). owed h x ≡ owed h n + one h header in
      if_both P failing (omega arith) (
        if_both P (SessionController.ready n.session)
          (owed-drive_blade h e (request_blade true header d e.steady e.steady m)
            ∙ owed-request h true header d e.steady e.steady m)
          (if_both P (leb 32 (length n.pending_blade_starts)) (omega arith) (omega arith)))

  owed-start :
      (h header : ℕ) (d : Direction) (e : Env) (n : Node F)
      → owed h (start_blade header d e n) ≡ owed h n + one h header
  unfolding start_blade
  owed-start h header d e n =
      let k = head_differs d n.pending_blade_starts in
      let a = if k then cancel_pending_blade_starts n else n in
      let b = drive_blade e (drive_session e a) in
      let t = record b { blade_test_active = true } in
      let c = if motion_session_active b then b else publish_neutral_manual_control e t in
      let i : Same h n a = if_both (λ (x : Node F). Same h n x) k (owed-cancel h n) refl in
      let j = owed-drives h e a in
      let l : Same h b c =
        if_both (λ (x : Node F). Same h b x) (motion_session_active b) refl (owed-neutral h e t) in
      let r = owed-start_driven h header d e (drive_session e c) in
      let s = owed-drive_session h e c in
      if_both (λ (x : Node F). owed h x ≡ owed h n + one h header) (start_refused e b) (omega arith)
        (omega arith)

  pub owed-mower_control :
      (h header enabled direction : ℕ) (e : Env) (n : Node F)
      → owed h (on_mower_control header enabled direction e n) ≡ owed h n + one h header
  unfolding on_mower_control
  owed-mower_control h header enabled direction e n =
      let d = direction_of enabled direction in
      let wrong = ltb 1 enabled || (not (enabled == 0) && ltb 1 direction) in
      let P = λ (x : Node F). owed h x ≡ owed h n + one h header in
      if_both P wrong (omega arith)
        (if_both P (is d Direction.off) (owed-stop h header e n) (owed-start h header d e n))

  pub owed-emergency_stop :
      (h : ℕ) (active : Bool) (e : Env) (n : Node F) → Same h n (on_emergency_stop active e n).0
  unfolding on_emergency_stop
  owed-emergency_stop h true e n = owed-disarm h true e _
  owed-emergency_stop h false e n = owed-drives h e _

  owed-claimed :
      (h : ℕ) (o : Option (List BladeWireExpectation)) (e : Env) (n : Node F)
      → Same h n (claimed e o n)
  owed-claimed h (some rest) e n = refl
  owed-claimed h none e n = owed-drive_blade h e _

  pub owed-blade_wire :
      (h : ℕ) (channel pwm : ℤ) (e : Env) (n : Node F) → Same h n (on_blade_wire channel pwm e n)
  unfolding on_blade_wire expire_wire
  owed-blade_wire h channel pwm e n =
      let m = expire_wire e n in
      if_both (λ (x : Node F). Same h n x) (not (eqb_ℤ channel n.blade.config.channel)) refl
        (owed-claimed h (claim pwm m.blade_wire_expectations) e m)

  pub owed-blade_output :
      (h : ℕ) (stamp : ℤ) (pwm : Option ℤ) (e : Env) (n : Node F)
      → Same h n (on_blade_output stamp pwm e n)
  unfolding on_blade_output
  owed-blade_output h stamp none e n = refl
  owed-blade_output h stamp (some pwm) e n =
      if_both (λ (x : Node F). Same h n x)
        (not n.connected || leb_ℤ stamp n.last_blade_output_stamp) refl (owed-drive_blade h e _)
