-- ===== src/Bridge/Telemetry.antt =====
-- The callbacks of the node (mavros_hardware_bridge_node.cpp) on the state of the FCU, velocities, ESC
-- telemetry, blade commands seen on the wire, answers of services and parameters.
use Prim.Native.String.{String}
use mowglimavros.Prelude.{
  ℕ, Bool, not, ◌&&◌, ◌||◌, Option, none, some, List, [], ◌∷◌, ◌==◌, same, if◌then◌else◌,
}
use mowglimavros.Prelude.Int.{ℤ, pos, negsuc, ltb_ℤ, leb_ℤ, eqb_ℤ}
use mowglimavros.Prelude.Double.{Double}
use mowglimavros.Safety as Safety
use mowglimavros.Readiness as Readiness
use mowglimavros.Esc as Esc
use mowglimavros.Esc.{EscObservation, EscState}
use mowglimavros.Blade.Request as BladeRequest
use mowglimavros.Blade.Request.{force_off}
use mowglimavros.Blade.Transport as BladeTransport
use mowglimavros.Session.Controller as SessionController
use mowglimavros.Bridge.Node.{
  Node, Env, Twist, manual, guided, motion_session_active, emergency, send,
  publish_neutral_manual_control, BladeWireExpectation,
}
use mowglimavros.Bridge.Replies.{cancel_pending_blade_starts}
use mowglimavros.Bridge.Blade.{drive_blade, expire_wire}
use mowglimavros.Bridge.Session.{drive_session, guided_wanted}
use mowglimavros.Bridge.Handlers.{lose_link}

-- The lambda `roles_valid` of the constructor.
unfoldable pub roles_valid : ℤ → ℤ → ℤ → Bool
roles_valid right left blade =
    let outside : ℤ → Bool = λ r. ltb_ℤ r (negsuc 0) || leb_ℤ (pos 64) r in
    not (outside right)
    && not (outside left)
    && not (outside blade)
    && (ltb_ℤ right (pos 0) || ltb_ℤ left (pos 0) || not (eqb_ℤ right left))
    && (ltb_ℤ right (pos 0) || ltb_ℤ blade (pos 0) || not (eqb_ℤ right blade))
    && (ltb_ℤ left (pos 0) || ltb_ℤ blade (pos 0) || not (eqb_ℤ left blade))

abbrev pub without {ℓ} : {A : Type ℓ} → ℕ → List (ℕ × A) → List (ℕ × A)
without key [] = []
without key ((k, a) ∷ l) = let rest = without key l in if k == key then rest else (k, a) ∷ rest

-- The expectations less the first with this pulse width, if there is one.
abbrev pub claim : ℤ → List BladeWireExpectation → Option (List BladeWireExpectation)
claim pwm [] = none
claim pwm (x ∷ xs) =
    let rest = claim pwm xs in
    if eqb_ℤ x.pwm pwm then some xs else elim rest [ none ↦ none | some l ↦ some (x ∷ l) ]

module _ {F : Type 0} where
  -- The answer of the FCU to a command of the blade.
  unfoldable pub on_blade_reply : ℕ → Bool → Env → Node F → Node F
  on_blade_reply token accepted e n = drive_blade e (record n {
    blade_rpc_ids = without token n.blade_rpc_ids;
    blade = BladeTransport.complete token accepted e.steady n.blade;
  })

  -- The answer of the FCU to a command of the session.
  unfoldable pub on_session_reply : ℕ → Bool → Env → Node F → Node F
  on_session_reply serial accepted e n = drive_blade e (
      drive_session e (record n {
        session_rpc_ids = without serial n.session_rpc_ids;
        session = SessionController.complete serial accepted e.steady n.session;
      }))

  abbrev pub claimed : Env → Option (List BladeWireExpectation) → Node F → Node F
  claimed e (some rest) n = record n { blade_wire_expectations = rest }
  claimed e none n = drive_blade e (record n { blade = force_off e.steady n.blade })

  -- A servo command of anyone to the FCU: channel and pulse width.
  unfoldable pub on_blade_wire : ℤ → ℤ → Env → Node F → Node F
  unfolding expire_wire
  on_blade_wire channel pwm e n =
      let m = expire_wire e n in
      if not (eqb_ℤ channel n.blade.config.channel)
      then n
      else claimed e (claim pwm m.blade_wire_expectations) m

  -- A report of the outputs: its time, and the pulse width of the blade's channel if it has it.
  unfoldable pub on_blade_output : ℤ → Option ℤ → Env → Node F → Node F
  on_blade_output stamp none e n = n
  on_blade_output stamp (some pwm) e n =
      if not n.connected || leb_ℤ stamp n.last_blade_output_stamp
      then n
      else drive_blade e (record n {
        last_blade_output_stamp = stamp;
        blade = BladeTransport.output pwm e.steady n.blade;
      })

module _ (D : Double) where
  open D use {F, is_finite}

  unfoldable pub on_cmd_vel : Twist F → Env → Node F → Node F
  on_cmd_vel v e n =
      let m = drive_session e n in
      if not (is_finite v.linear) || not (is_finite v.angular)
      then m
      else if emergency e m
          || not (motion_session_active m)
          || not m.session.wanted_arm
          || not (SessionController.ready m.session)
      then publish_neutral_manual_control e m
      else if guided_wanted e m
      then send (guided v) m
      else send (manual v) m

  -- The first test of `on_mavros_state`.
  unfoldable pub drop_wire : Bool → Node F → Node F
  drop_wire connected n =
      if same n.connected connected
      then n
      else record n { last_blade_output_stamp = pos 0; blade_wire_expectations = [] }

  -- From there on to `readiness_.connection`; `lost` is a link that is lost now.
  unfoldable pub take_link : Bool → Bool → Env → Node F → Node F
  unfolding lose_link
  take_link lost connected e n = lose_link lost (record n {
    blade = BladeRequest.connection connected e.steady n.blade;
    last_fcu_receipt_ms = e.steady;
    esc_tracker = if lost then Esc.reset D n.esc_tracker else n.esc_tracker;
    safety = if connected then n.safety else Safety.disconnect n.safety;
    readiness = Readiness.connection connected n.readiness;
  })

  -- `on_mavros_state` up to its two drives.
  unfoldable pub note_state : Bool → Bool → String → Env → Node F → Node F
  unfolding drop_wire take_link cancel_pending_blade_starts
  note_state connected armed mode e n =
      let lost = n.connected && not connected in
      let b = take_link lost connected e (drop_wire connected n) in
      let c = if lost then cancel_pending_blade_starts b else b in
      record c {
        connected = connected;
        armed = armed;
        mode = mode;
        session = SessionController.observe connected armed mode c.session;
      }

  unfoldable pub on_mavros_state : Bool → Bool → String → Env → Node F → Node F
  unfolding note_state
  on_mavros_state connected armed mode e n =
      drive_blade e (drive_session e (note_state connected armed mode e n))

  -- The sample of the blade from what the tracker has of its slot.
  abbrev pub blade_sample : EscState F → BladeTransport.Sample
  blade_sample s = record {
    source = pos s.sample.source;
    stamp = s.last_update_ns;
    count = s.sample.count;
    count_valid = s.sample.count_valid;
    valid = s.online && s.sample.rpm_valid && leb_ℤ (pos 0) s.age_ms && leb_ℤ s.age_ms (pos 1000);
    rpm = s.sample.rpm;
  }

  unfoldable pub on_esc_telemetry : EscObservation F → Env → Node F → Node F
  on_esc_telemetry o e n =
      let m = record n { esc_tracker = Esc.observe D o e.now n.esc_tracker } in
      let s = blade_sample (Esc.project D o.esc_index e.now m.esc_tracker) in
      if not n.connected
      then n
      else if ltb_ℤ m.blade_esc_slot (pos 0) || not (eqb_ℤ (pos o.esc_index) m.blade_esc_slot)
      then m
      else drive_blade e (record m { blade = BladeTransport.sample s e.steady m.blade })

  -- The callback after a change of parameters, where one of the three slots is among them.
  unfoldable pub on_slots : ℤ → ℤ → ℤ → Env → Node F → Node F
  on_slots right left blade e n = drive_blade e (record n {
    right_esc_slot = right;
    left_esc_slot = left;
    blade_esc_slot = blade;
    esc_tracker = Esc.reset D n.esc_tracker;
    blade = force_off e.steady n.blade;
  })
