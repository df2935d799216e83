-- ===== src/Bridge/Moves.antt =====
-- What `drive_session_locked` and lists of drives (mavros_hardware_bridge_node.cpp) leave as it was,
-- and when they send a command that starts the blade.
use mowglimavros.Prelude.{
  ℕ, Bool, true, false, not, ◌&&◌, ◌≡◌, ◌⊎◌, inl, inr, refl, Option, none, some, List, [], ◌∷◌,
  if_both, if◌then◌else◌,
}
use mowglimavros.Blade.Request.{force_off}
use mowglimavros.Session.Controller as SessionController
use mowglimavros.Session.Controller.{FcuSessionController, Command, is_mode}
use mowglimavros.Bridge.Node.{
  Node, Output, Env, Client, emergency, motion_session_active, publish_neutral_manual_control,
}
use mowglimavros.Bridge.Replies.{cancel_pending_blade_starts}
use mowglimavros.Bridge.Blade.{end_failed_if, drive_blade}
use mowglimavros.Bridge.Session.{
  demand_session, watch_traction, forget_each, forget_session_rpc, requested, request_session,
  drive_session, safety_demand, request_safety_disarm,
}
use mowglimavros.Bridge.Still.{
  starts, velocities, Kept, trans-Kept, updated-Kept, Still, same-Still, trans-Still, neutral-Still,
  cancel-Still, force_off-Still, session-Still, end_failed_if-Still,
}
use mowglimavros.Bridge.Starts.{Safe, Kept-Safe, drive_blade-Kept, drive_blade_guarded}

module _ {F : Type 0} where
  pub demand-Still : (e : Env) (n : Node F) → Still n (demand_session e n)
  unfolding demand_session
  demand-Still e n = session-Still _ n

  pub watch-Still : (e : Env) (n : Node F) → Still n (watch_traction e n)
  unfolding watch_traction
  watch-Still e n =
      let ready =
        motion_session_active n
        && not (emergency e n)
        && SessionController.ready n.session
        && n.session.wanted_arm in
      let b = n.traction_was_ready && not ready in
      trans-Still (if_both (Still n) b (neutral-Still e n) (same-Still n))
        (record { kept = updated-Kept _; allowed = refl; quiet = λ q. q; calm = λ q. q })

  forget_each-Still : (l : List (ℕ × (Client × ℕ))) (n : Node F) → Still n (forget_each l n)
  forget_each-Still [] n = same-Still n
  forget_each-Still ((serial, (client, id)) ∷ l) n =
      trans-Still
        (if_both (Still n) (SessionController.current serial n.session)
          (record { kept = updated-Kept n; allowed = refl; quiet = λ q. q; calm = λ q. q })
          (record { kept = updated-Kept n; allowed = refl; quiet = λ q. q; calm = λ q. q }))
        (forget_each-Still l _)

  forget-Still : (n : Node F) → Still n (forget_session_rpc n)
  unfolding forget_session_rpc
  forget-Still n =
      trans-Still (record { kept = updated-Kept n; allowed = refl; quiet = λ q. q; calm = λ q. q })
        (forget_each-Still n.session_rpc_ids _)

  requested-Still :
      (e : Env) (r : FcuSessionController × Option Command) (n : Node F) → Still n (requested e r n)
  requested-Still e (s, none) n = session-Still s n
  requested-Still e (s, some c) n =
      let m = record n { session = s } in
      let arms = not (is_mode c.kind) && c.arm in
      let a = if arms then publish_neutral_manual_control e m else m in
      let h : Still n a =
        trans-Still (session-Still s n)
          (if_both (Still m) arms (neutral-Still e m) (same-Still m)) in
      if_both (Still n) e.sends
        (trans-Still h (record {
          kept = updated-Kept a;
          allowed = refl;
          quiet =
              if_both (λ (o : Output F). starts (o ∷ a.sent) ≡ true → starts a.sent ≡ true)
                (is_mode c.kind) (λ q. q) (λ q. q);
          calm =
              if_both (λ (o : Output F). velocities (o ∷ a.sent) ≡ true → velocities a.sent ≡ true)
                (is_mode c.kind) (λ q. q) (λ q. q);
        }))
        (trans-Still h (session-Still _ a))

  request-Still : (e : Env) (n : Node F) → Still n (request_session e n)
  unfolding request_session
  request-Still e n = requested-Still e _ n

  pub drive_session-Still : (e : Env) (n : Node F) → Still n (drive_session e n)
  unfolding drive_session
  drive_session-Still e n =
      let d = demand_session e n in
      let a = watch_traction e d in
      let b = end_failed_if (SessionController.failed a.session) e a in
      trans-Still (demand-Still e n) (
        trans-Still (watch-Still e d) (
          trans-Still (end_failed_if-Still (SessionController.failed a.session) e a)
            (trans-Still (forget-Still b) (request-Still e (forget_session_rpc b)))))

  -- A start that is new is sent in a safe state.
  pub record Guarded (e : Env) (n m : Node F) : Type 0 where
    pub guarded : starts m.sent ≡ true → (starts n.sent ≡ true) ⊎ Safe e m

  -- Drives, one after another.
  pub record Moves (e : Env) (n m : Node F) : Type 0 where
    pub kept : Kept n m
    pub guarded : starts m.sent ≡ true → (starts n.sent ≡ true) ⊎ Safe e m

  pub Still-Moves : (e : Env) (n m : Node F) → Still n m → Moves e n m
  Still-Moves e n m h = record { kept = h.kept; guarded = λ q. inl (h.quiet q) }

  pub trans-Moves : {e : Env} {n m k : Node F} → Moves e n m → Moves e m k → Moves e n k
  trans-Moves {e} {n} {m} {k} h g = record {
    kept = trans-Kept h.kept g.kept;
    guarded = λ q. elim (g.guarded q) [
      | inr s ↦ inr s
      | inl p ↦ elim (h.guarded p) [ inl o ↦ inl o | inr s ↦ inr (Kept-Safe e m k g.kept s) ]
    ];
  }

  pub drive_blade-Moves : (e : Env) (n : Node F) → Moves e n (drive_blade e n)
  drive_blade-Moves e n = record { kept = drive_blade-Kept e n; guarded = drive_blade_guarded e n }

  pub drive_session-Moves : (e : Env) (n : Node F) → Moves e n (drive_session e n)
  drive_session-Moves e n = Still-Moves e n (drive_session e n) (drive_session-Still e n)

  -- `drive_session_locked` and then `drive_blade_locked`.
  pub drives-Moves : (e : Env) (n : Node F) → Moves e n (drive_blade e (drive_session e n))
  drives-Moves e n = trans-Moves (drive_session-Moves e n) (drive_blade-Moves e (drive_session e n))

  pub safety_demand-Still : (hold : Bool) (e : Env) (n : Node F) → Still n (safety_demand hold e n)
  unfolding safety_demand
  safety_demand-Still hold e n =
      let t = record n { mow_enabled = false; blade_test_active = false } in
      let a = cancel_pending_blade_starts t in
      let f = record a { blade = force_off e.steady a.blade } in
      trans-Still (record { kept = updated-Kept n; allowed = refl; quiet = λ q. q; calm = λ q. q })
        (trans-Still (cancel-Still t) (
          trans-Still (force_off-Still e.steady a)
            (trans-Still (neutral-Still e f) (session-Still _ _))))

  pub disarm-Moves :
      (hold : Bool) (e : Env) (n : Node F) → Moves e n (request_safety_disarm hold e n).0
  unfolding request_safety_disarm
  disarm-Moves hold e n =
      let s = safety_demand hold e n in
      trans-Moves (Still-Moves e n s (safety_demand-Still hold e n))
        (trans-Moves (drive_blade-Moves e s) (drive_session-Moves e (drive_blade e s)))

  pub quiet-Guarded :
      (e : Env) (n m : Node F) → (starts m.sent ≡ true → starts n.sent ≡ true) → Guarded e n m
  quiet-Guarded e n m h = record { guarded = λ q. inl (h q) }

  -- A change of the state that sends no start, and then drives.
  pub after-Guarded :
      (e : Env) (n p m : Node F)
      → (starts p.sent ≡ true → starts n.sent ≡ true)
      → Moves e p m
      → Guarded e n m
  after-Guarded e n p m h g = record {
    guarded = λ q. elim (g.guarded q) [ inl s ↦ inl (h s) | inr s ↦ inr s ];
  }
