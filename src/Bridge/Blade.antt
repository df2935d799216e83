-- ===== src/Bridge/Blade.antt =====
-- `drive_blade_locked` of the node (mavros_hardware_bridge_node.cpp) and what it calls.
use mowglimavros.Prelude.{
  ℕ, Bool, true, false, not, ◌&&◌, ◌||◌, Option, none, some, List, [], ◌∷◌, ◌++◌, ◌+◌, ◌==◌,
  if◌then◌else◌,
}
use mowglimavros.Prelude.Int.{ℤ, pos, pos_part, neg_part, sub_ℕ, ◌-ℤ◌, ltb_ℤ, leb_ℤ}
use mowglimavros.Safety.{HardwareSafetyState, released}
use mowglimavros.Blade.Types as BladeTypes
use mowglimavros.Blade.Types.{Direction, BladeControl, is, satisfied}
use mowglimavros.Blade.Request.{permission, force_off, service_timeout}
use mowglimavros.Blade.Transport.{tick, next, current, complete}
use mowglimavros.Session.Controller as SessionController
use mowglimavros.Bridge.Node.{
  Node, Env, commands, drops, command_long, PendingBladeStart, BladeReply, BladeWireExpectation,
  any, is_empty, motion_session_active, emergency, send, publish_neutral_manual_control,
}
use mowglimavros.Bridge.Replies.{reply_blade, cancel_pending_blade_starts, request_blade}

abbrev pub is_released : HardwareSafetyState → Bool
is_released released = true
is_released _ = false

-- `steady - started_ms > 20000`.
unfoldable pub overdue : ℤ → ℤ → Bool
overdue steady started = ltb_ℤ (pos 20000) (steady -ℤ started)

-- A receipt that is known and at most `limit` milliseconds old.
abbrev pub recent : ℤ → ℤ → ℤ → Bool
recent limit steady receipt = leb_ℤ (pos 0) receipt && leb_ℤ (steady -ℤ receipt) limit

-- The expectations of commands on the wire, less the leading ones whose time is over.
abbrev pub expire : ℤ → List BladeWireExpectation → List BladeWireExpectation
expire steady [] = []
expire steady (x ∷ xs) =
    let rest = expire steady xs in if ltb_ℤ x.until_ms steady then rest else x ∷ xs

module _ {F : Type 0} where
  unfoldable pub end_failed_blade_test : Env → Node F → Node F
  unfolding cancel_pending_blade_starts
  end_failed_blade_test e n =
      let a = cancel_pending_blade_starts (record n { blade_test_active = false }) in
      let b = publish_neutral_manual_control e (record a { blade = force_off e.steady a.blade }) in
      if not n.blade_test_active || motion_session_active n
      then n
      else record b { session = SessionController.demand "HOLD" false (emergency e b) b.session }

  abbrev pub end_failed_if : Bool → Env → Node F → Node F
  end_failed_if b e n = if b then end_failed_blade_test e n else n

  unfoldable pub blade_allowed : Env → Node F → Bool
  unfolding emergency
  blade_allowed e n =
      SessionController.ready n.session
      && n.session.wanted_arm
      && n.mowing_enabled
      && n.connected
      && n.armed
      && recent (pos 2500) e.steady n.last_fcu_receipt_ms
      && recent (pos 3000) e.steady n.last_hardware_safety_ms
      && is_released n.safety.hardware_safety_state
      && not (emergency e n)
      && leb_ℤ (pos 0) n.blade_esc_slot

  unfoldable pub expire_wire : Env → Node F → Node F
  expire_wire e n = record n { blade_wire_expectations = expire e.steady n.blade_wire_expectations }

  -- The permission and the tick of the blade, from the first lines of `drive_blade_locked` on.
  unfoldable pub permit : Env → Node F → Node F
  unfolding end_failed_blade_test blade_allowed
  permit e n =
      let m = end_failed_if (SessionController.failed n.session || not n.connected) e n in
      record m { blade = tick e.steady (permission (blade_allowed e m) e.steady m.blade) }

  -- One request that waits for the session: refused, made, or kept.
  unfoldable pub start_one : Env → Bool → PendingBladeStart → Node F → Node F
  unfolding request_blade overdue
  start_one e stop p n =
      if SessionController.failed n.session
        || not n.connected
        || stop
        || overdue e.steady p.started_ms
      then reply_blade p.header false n
      else if SessionController.ready n.session
      then request_blade true p.header p.direction p.started_ms e.steady n
      else record n { pending_blade_starts = n.pending_blade_starts ++ p ∷ [] }

  abbrev pub start_each : Env → Bool → List PendingBladeStart → Node F → Node F
  start_each e stop [] n = n
  start_each e stop (p ∷ ps) n = start_each e stop ps (start_one e stop p n)

  -- Some pending start waits for more than 20 seconds.
  abbrev pub start_late : Env → Node F → Bool
  start_late e n =
      any (λ p. overdue e.steady (PendingBladeStart.started_ms p)) n.pending_blade_starts

  -- The loop on the pending starts; `stop` is the emergency that was read before it.
  unfoldable pub start_pending : Env → Bool → Node F → Node F
  unfolding start_one end_failed_blade_test overdue
  start_pending e stop n =
      let m = end_failed_if (start_late e n) e n in
      start_each e stop m.pending_blade_starts (record m { pending_blade_starts = [] })

  -- A failed service deadline.
  unfoldable pub time_out : Env → Node F → Node F
  unfolding overdue
  time_out e n =
      let late =
        any
          (λ r.
            BladeReply.revision r == n.blade.revision && overdue e.steady (BladeReply.started_ms r))
          n.blade_replies in
      if not (satisfied n.blade) && late
      then record n { blade = service_timeout e.steady n.blade }
      else n

  abbrev pub forget_each : List (ℕ × ℕ) → Node F → Node F
  forget_each [] n = n
  forget_each ((token, id) ∷ l) n = forget_each l (
      if current token n.blade
      then record n { blade_rpc_ids = n.blade_rpc_ids ++ (token, id) ∷ [] }
      else send (drops command_long id) n)

  -- The requests to the FCU that the blade does not wait for any more.
  unfoldable pub forget_blade_rpc : Node F → Node F
  forget_blade_rpc n = forget_each n.blade_rpc_ids (record n { blade_rpc_ids = [] })

  unfoldable pub reply_one : Env → BladeReply → Node F → Node F
  unfolding overdue
  reply_one e r n =
      let invalid =
        not (r.revision == n.blade.revision) || n.blade.fault || overdue e.steady r.started_ms in
      if invalid || satisfied n.blade
      then reply_blade r.header (not invalid) n
      else record n { blade_replies = n.blade_replies ++ r ∷ [] }

  abbrev pub reply_each : Env → List BladeReply → Node F → Node F
  reply_each e [] n = n
  reply_each e (r ∷ rs) n = reply_each e rs (reply_one e r n)

  unfoldable pub reply_all : Env → Node F → Node F
  unfolding reply_one
  reply_all e n = reply_each e n.blade_replies (record n { blade_replies = [] })

  abbrev pub dispatched : Env → BladeControl × Option BladeTypes.Command → Node F → Node F
  dispatched e (b, none) n = record n { blade = b }
  dispatched e (b, some c) n =
      if e.sends
      then record n {
        blade = b;
        blade_wire_expectations =
            n.blade_wire_expectations
            ++ record {
              pwm = c.pwm;
              until_ms = sub_ℕ (pos_part e.steady + 2000) (neg_part e.steady);
            }
              ∷ [];
        blade_rpc_ids = n.blade_rpc_ids ++ (c.token, e.request_id) ∷ [];
        sent = commands c ∷ n.sent;
      }
      else record n { blade = complete c.token false e.steady b }

  -- The tail of `drive_blade_locked`: the next command of the blade.
  unfoldable pub dispatch : Env → Node F → Node F
  dispatch e n =
      if not e.ardupilot || not e.command_ready then n else dispatched e (next e.steady n.blade) n

  -- `drive_blade_locked` up to its test of the transport.
  unfoldable pub settle_blade : Env → Node F → Node F
  unfolding expire_wire permit start_pending time_out forget_blade_rpc reply_all
  settle_blade e n =
      let stop = emergency e n in
      let a = start_pending e stop (permit e (expire_wire e n)) in
      let b = reply_all e (forget_blade_rpc (time_out e a)) in
      end_failed_if (is_empty b.pending_blade_starts && is b.blade.requested Direction.off) e b

  unfoldable pub drive_blade : Env → Node F → Node F
  unfolding settle_blade dispatch
  drive_blade e n = dispatch e (settle_blade e n)
