-- ===== src/Bridge/Velocity.antt =====
-- When the node (mavros_hardware_bridge_node.cpp) passes a velocity on to the FCU.
use text.Mathlib.Text.{◌==◌ as str_eq}
use mowglimavros.Prelude.{Bool, true, false, not, ◌||◌, ◌≡◌, arith, if_cases, if_both}
use mowglimavros.Prelude.Double.{Double}
use mowglimavros.Session.Controller as SessionController
use mowglimavros.Session.Controller.{FcuSessionController}
use mowglimavros.Bridge.Node.{
  Node, Env, Output, Twist, motion_session_active, emergency, send, guided, manual,
}
use mowglimavros.Bridge.Session.{drive_session, guided_wanted}
use mowglimavros.Bridge.Telemetry.{on_cmd_vel}
use mowglimavros.Bridge.Still.{velocities, neutral-Still}
use mowglimavros.Bridge.Moves.{drive_session-Still}

ready_session :
    (s : FcuSessionController)
    → SessionController.ready s ≡ true
    → s.wanted_arm ≡ true
    → (s.connected ≡ true) × (s.armed ≡ true) × (str_eq s.mode s.wanted_mode ≡ true)
unfolding SessionController.ready
ready_session s r w = ground arith

module _ (D : Double) where
  open D use {F, is_finite}

  -- The velocity is finite, there is no emergency and a movement session, and the FCU is connected,
  -- armed, and in the mode that is demanded.
  pub record Drivable (v : Twist F) (e : Env) (n : Node F) : Type 0 where
    pub linear : is_finite v.linear ≡ true
    pub angular : is_finite v.angular ≡ true
    pub no_emergency : emergency e n ≡ false
    pub motion : motion_session_active n ≡ true
    pub demanded : n.session.wanted_arm ≡ true
    pub connected : n.session.connected ≡ true
    pub armed : n.session.armed ≡ true
    pub in_mode : str_eq n.session.mode n.session.wanted_mode ≡ true

  abbrev unusable : Twist F → Bool
  unusable v = not (is_finite v.linear) || not (is_finite v.angular)

  abbrev held : Env → Node F → Bool
  held e n =
      emergency e n
      || not (motion_session_active n)
      || not n.session.wanted_arm
      || not (SessionController.ready n.session)

  -- Neither test of the callback holds it back.
  passed-Drivable :
      (v : Twist F) (e : Env) (n : Node F) → unusable v ≡ false → held e n ≡ false → Drivable v e n
  passed-Drivable v e n u h =
      let w : n.session.wanted_arm ≡ true = ground arith in
      let r = ready_session n.session (ground arith) w in
      record {
        linear = ground arith;
        angular = ground arith;
        no_emergency = ground arith;
        motion = ground arith;
        demanded = w;
        connected = r.0;
        armed = r.1;
        in_mode = r.2;
      }

  sent-Drivable :
      (v : Twist F) (e : Env) (o : Output F) (n : Node F) → Drivable v e n → Drivable v e (send o n)
  unfolding emergency
  sent-Drivable v e o n d = record {
    linear = d.linear;
    angular = d.angular;
    no_emergency = d.no_emergency;
    motion = d.motion;
    demanded = d.demanded;
    connected = d.connected;
    armed = d.armed;
    in_mode = d.in_mode;
  }

  no_velocity : {P : Type 0} (n : Node F) → velocities n.sent ≡ true → velocities n.sent ≡ false → P
  no_velocity n s q = ground arith

  -- A velocity is passed on to the FCU only where it is finite, no emergency is active or latched, the
  -- state of the mower is one that moves, and the FCU is connected and armed in the demanded mode,
  -- with an armed FCU demanded.
  pub cmd_vel-Drivable :
      (v : Twist F) (e : Env) (n : Node F)
      → velocities n.sent ≡ false
      → velocities (on_cmd_vel D v e n).sent ≡ true
      → Drivable v e (on_cmd_vel D v e n)
  unfolding on_cmd_vel
  cmd_vel-Drivable v e n q =
      let m = drive_session e n in
      let s = drive_session-Still e n in
      let P = λ (x : Node F). velocities x.sent ≡ true → Drivable v e x in
      if_cases P (unusable v) (λ u h. no_velocity n (s.calm h) q)
        (λ u.
          if_cases P (held e m) (λ k h. no_velocity n (s.calm ((neutral-Still e m).calm h)) q)
            (λ k.
              let d = passed-Drivable v e m u k in
              if_both P (guided_wanted e m) (λ h. sent-Drivable v e (guided v) m d)
                (λ h. sent-Drivable v e (manual v) m d)))
