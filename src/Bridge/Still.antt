-- ===== src/Bridge/Still.antt =====
-- What a request, a refusal and the end of a failed test leave as it was
-- (mavros_hardware_bridge_node.cpp).
use mowglimavros.Prelude.{ℕ, Bool, true, false, ◌≡◌, ◌∙◌, refl, arith, List, [], ◌∷◌, if_both}
use mowglimavros.Prelude.Int.{ℤ}
use mowglimavros.Blade.Types.{Direction, BladeControl, Result}
use mowglimavros.Blade.Request.{request, request_accepted, force_off}
use mowglimavros.Blade.Calls.{is_on}
use mowglimavros.Session.Controller.{FcuSessionController}
use mowglimavros.Bridge.Node.{
  Node, Env, Output, Client, commands, manual, guided, PendingBladeStart, BladeReply,
  BladeWireExpectation, publish_neutral_manual_control, any,
}
use mowglimavros.Bridge.Replies.{answer, cancel_pending_blade_starts, request_blade, refuse}
use mowglimavros.Bridge.Blade.{end_failed_blade_test, end_failed_if}

-- A command that starts the blade is among the outputs.
abbrev is_start : {F : Type 0} → Output F → Bool
is_start (commands c) = is_on c.direction
is_start _ = false

abbrev pub starts : {F : Type 0} → List (Output F) → Bool
starts l = any is_start l

-- A velocity that is not neutral is among the outputs.
abbrev is_velocity : {F : Type 0} → Output F → Bool
is_velocity (manual v) = true
is_velocity (guided v) = true
is_velocity _ = false

abbrev pub velocities : {F : Type 0} → List (Output F) → Bool
velocities l = any is_velocity l

allowed-request :
    (d : Direction) (now : ℤ) (s : BladeControl) → (request d now s).0.allowed ≡ s.allowed
unfolding request request_accepted force_off
allowed-request d now s = ground arith

module _ {F : Type 0} where
  -- The fields that a drive does not change.
  pub record Kept (n m : Node F) : Type 0 where
    pub safety : m.safety ≡ n.safety
    pub connected : m.connected ≡ n.connected
    pub armed : m.armed ≡ n.armed
    pub mode : m.mode ≡ n.mode
    pub mowing_enabled : m.mowing_enabled ≡ n.mowing_enabled
    pub fcu_receipt : m.last_fcu_receipt_ms ≡ n.last_fcu_receipt_ms
    pub safety_receipt : m.last_hardware_safety_ms ≡ n.last_hardware_safety_ms
    pub blade_slot : m.blade_esc_slot ≡ n.blade_esc_slot
    pub high_level : m.high_level_state ≡ n.high_level_state

  pub trans-Kept : {n m k : Node F} → Kept n m → Kept m k → Kept n k
  trans-Kept h g = record {
    safety = g.safety ∙ h.safety;
    connected = g.connected ∙ h.connected;
    armed = g.armed ∙ h.armed;
    mode = g.mode ∙ h.mode;
    mowing_enabled = g.mowing_enabled ∙ h.mowing_enabled;
    fcu_receipt = g.fcu_receipt ∙ h.fcu_receipt;
    safety_receipt = g.safety_receipt ∙ h.safety_receipt;
    blade_slot = g.blade_slot ∙ h.blade_slot;
    high_level = g.high_level ∙ h.high_level;
  }

  pub updated-Kept :
      (n : Node F) {blade : BladeControl} {session : FcuSessionController}
      {test traction mow : Bool} {session_ids : List (ℕ × (Client × ℕ))}
      {pending : List PendingBladeStart} {answers : List BladeReply} {blade_ids : List (ℕ × ℕ)}
      {wire : List BladeWireExpectation} {sent : List (Output F)}
      → Kept n (record n {
        blade = blade;
        session = session;
        blade_test_active = test;
        traction_was_ready = traction;
        mow_enabled = mow;
        session_rpc_ids = session_ids;
        pending_blade_starts = pending;
        blade_replies = answers;
        blade_rpc_ids = blade_ids;
        blade_wire_expectations = wire;
        sent = sent;
      })
  updated-Kept n = record {
    safety = refl;
    connected = refl;
    armed = refl;
    mode = refl;
    mowing_enabled = refl;
    fcu_receipt = refl;
    safety_receipt = refl;
    blade_slot = refl;
    high_level = refl;
  }

  -- Beside them, the permission of the blade; and neither a start nor a velocity is sent.
  pub record Still (n m : Node F) : Type 0 where
    pub kept : Kept n m
    pub allowed : m.blade.allowed ≡ n.blade.allowed
    pub quiet : starts m.sent ≡ true → starts n.sent ≡ true
    pub calm : velocities m.sent ≡ true → velocities n.sent ≡ true

  pub trans-Still : {n m k : Node F} → Still n m → Still m k → Still n k
  trans-Still h g = record {
    kept = trans-Kept h.kept g.kept;
    allowed = g.allowed ∙ h.allowed;
    quiet = λ e. h.quiet (g.quiet e);
    calm = λ e. h.calm (g.calm e);
  }

  pub same-Still : (n : Node F) → Still n n
  same-Still n = record { kept = updated-Kept n; allowed = refl; quiet = λ e. e; calm = λ e. e }

  pub neutral-Still : (e : Env) (n : Node F) → Still n (publish_neutral_manual_control e n)
  neutral-Still e n =
      if_both (Still n) _
        (record { kept = updated-Kept n; allowed = refl; quiet = λ q. q; calm = λ q. q })
        (record { kept = updated-Kept n; allowed = refl; quiet = λ q. q; calm = λ q. q })

  refuse_quiet :
      (ps : List PendingBladeStart) (out : List (Output F))
      → starts (refuse ps out) ≡ true
      → starts out ≡ true
  refuse_quiet [] out e = e
  refuse_quiet (p ∷ ps) out e = refuse_quiet ps _ e

  refuse_calm :
      (ps : List PendingBladeStart) (out : List (Output F))
      → velocities (refuse ps out) ≡ true
      → velocities out ≡ true
  refuse_calm [] out e = e
  refuse_calm (p ∷ ps) out e = refuse_calm ps _ e

  pub cancel-Still : (n : Node F) → Still n (cancel_pending_blade_starts n)
  unfolding cancel_pending_blade_starts
  cancel-Still n = record {
    kept = updated-Kept n;
    allowed = refl;
    quiet = refuse_quiet n.pending_blade_starts n.sent;
    calm = refuse_calm n.pending_blade_starts n.sent;
  }

  -- The blade goes back to neutral.
  pub force_off-Still :
      (now : ℤ) (n : Node F) → Still n (record n { blade = force_off now n.blade })
  unfolding force_off
  force_off-Still now n = record {
    kept = updated-Kept n;
    allowed = refl;
    quiet = λ q. q;
    calm = λ q. q;
  }

  pub session-Still : (s : FcuSessionController) (n : Node F) → Still n (record n { session = s })
  session-Still s n = record {
    kept = updated-Kept n;
    allowed = refl;
    quiet = λ q. q;
    calm = λ q. q;
  }

  pub test-Still : (b : Bool) (n : Node F) → Still n (record n { blade_test_active = b })
  test-Still b n = record { kept = updated-Kept n; allowed = refl; quiet = λ q. q; calm = λ q. q }

  pub end_failed-Still : (e : Env) (n : Node F) → Still n (end_failed_blade_test e n)
  unfolding end_failed_blade_test
  end_failed-Still e n =
      let t = record n { blade_test_active = false } in
      let a = cancel_pending_blade_starts t in
      let f = record a { blade = force_off e.steady a.blade } in
      if_both (Still n) _ (same-Still n) (
        trans-Still (test-Still false n) (
          trans-Still (cancel-Still t) (
            trans-Still (force_off-Still e.steady a)
              (trans-Still (neutral-Still e f) (session-Still _ _)))))

  pub end_failed_if-Still : (b : Bool) (e : Env) (n : Node F) → Still n (end_failed_if b e n)
  end_failed_if-Still b e n = if_both (Still n) b (end_failed-Still e n) (same-Still n)

  answer-Still :
      (transport : Bool) (header : ℕ) (started : ℤ) (r : Result) (n : Node F)
      → Still n (answer transport header started r n)
  unfolding answer
  answer-Still transport header started r n =
      if_both (Still n) _
        (record { kept = updated-Kept n; allowed = refl; quiet = λ q. q; calm = λ q. q })
        (record { kept = updated-Kept n; allowed = refl; quiet = λ q. q; calm = λ q. q })

  pub request-Still :
      (transport : Bool) (header : ℕ) (d : Direction) (started now : ℤ) (n : Node F)
      → Still n (request_blade transport header d started now n)
  unfolding request_blade
  request-Still transport header d started now n =
      let r = request d now n.blade in
      trans-Still
        (record {
          kept = updated-Kept n;
          allowed = allowed-request d now n.blade;
          quiet = λ q. q;
          calm = λ q. q;
        })
        (answer-Still transport header started r.1 (record n { blade = r.0 }))
