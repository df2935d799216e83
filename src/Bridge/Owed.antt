-- ===== src/Bridge/Owed.antt =====
-- The requests of ~/mower_control that the drives of the node (mavros_hardware_bridge_node.cpp) answer
-- or keep.
use mowglimavros.Prelude.{
  ℕ, ◌+◌, Bool, true, false, not, ◌&&◌, ◌||◌, ◌≡◌, ◌∙◌, refl, arith, Option, none, some, List, [],
  ◌∷◌, ◌++◌, ◌==◌, if_both, ltb, if◌then◌else◌,
}
use mowglimavros.Prelude.Int.{ℤ}
use mowglimavros.Blade.Types as BladeTypes
use mowglimavros.Blade.Types.{BladeControl, Direction, Result, satisfied, is}
use mowglimavros.Blade.Request.{force_off, request}
use mowglimavros.Blade.Transport.{current, next}
use mowglimavros.Session.Controller as SessionController
use mowglimavros.Session.Controller.{FcuSessionController, Command, is_mode}
use mowglimavros.Bridge.Node.{
  Node, Env, Output, replies, PendingBladeStart, BladeReply, publish_neutral_manual_control,
  motion_session_active, emergency, is_empty, length,
}
use mowglimavros.Bridge.Replies.{
  answer, cancel_pending_blade_starts, request_blade, refuse, is_pending,
}
use mowglimavros.Bridge.Blade.{
  end_failed_blade_test, end_failed_if, expire_wire, permit, start_one, start_each, start_pending,
  start_late, time_out, forget_each, forget_blade_rpc, reply_one, reply_each, reply_all, overdue,
  dispatched, dispatch, settle_blade, drive_blade,
}

-- 1 where the request `h` is meant.
abbrev pub one : ℕ → ℕ → ℕ
one h header = if header == h then 1 else 0

abbrev pub about : {F : Type 0} → ℕ → Output F → ℕ
about h (replies header success) = one h header
about h _ = 0

-- How often the request was answered, waits for the session, and waits for the blade.
abbrev pub answered : {F : Type 0} → ℕ → List (Output F) → ℕ
answered h [] = 0
answered h (o ∷ l) = about h o + answered h l

abbrev pub waiting : ℕ → List PendingBladeStart → ℕ
waiting h [] = 0
waiting h (p ∷ l) = one h p.header + waiting h l

abbrev pub expecting : ℕ → List BladeReply → ℕ
expecting h [] = 0
expecting h (r ∷ l) = one h r.header + expecting h l

pub waiting-append :
    (h : ℕ) (l : List PendingBladeStart) (p : PendingBladeStart)
    → waiting h (l ++ p ∷ []) ≡ waiting h l + one h p.header
waiting-append h [] p = omega arith
waiting-append h (q ∷ l) p = let i = waiting-append h l p in omega arith

expecting-append :
    (h : ℕ) (l : List BladeReply) (r : BladeReply)
    → expecting h (l ++ r ∷ []) ≡ expecting h l + one h r.header
expecting-append h [] r = omega arith
expecting-append h (q ∷ l) r = let i = expecting-append h l r in omega arith

module _ {F : Type 0} where
  abbrev pub owed : ℕ → Node F → ℕ
  owed h n = answered h n.sent + waiting h n.pending_blade_starts + expecting h n.blade_replies

  answered-refuse :
      (h : ℕ) (ps : List PendingBladeStart) (out : List (Output F))
      → answered h (refuse ps out) ≡ answered h out + waiting h ps
  answered-refuse h [] out = omega arith
  answered-refuse h (p ∷ ps) out =
      let i = answered-refuse h ps (replies p.header false ∷ out) in omega arith

  pub owed-cancel : (h : ℕ) (n : Node F) → owed h (cancel_pending_blade_starts n) ≡ owed h n
  unfolding cancel_pending_blade_starts
  owed-cancel h n = let i = answered-refuse h n.pending_blade_starts n.sent in omega arith

  pub owed-neutral :
      (h : ℕ) (e : Env) (n : Node F) → owed h (publish_neutral_manual_control e n) ≡ owed h n
  owed-neutral h e n =
      if_both (λ (x : Node F). owed h x ≡ owed h n) e.guided_velocity_implemented (omega arith)
        (omega arith)

  -- A blade test that is given up.
  pub owed-give_up :
      (h : ℕ) (e : Env) (n : Node F)
      → let a = cancel_pending_blade_starts (record n { blade_test_active = false }) in
        owed h (publish_neutral_manual_control e (record a { blade = force_off e.steady a.blade }))
        ≡ owed h n
  owed-give_up h e n =
      let t = record n { blade_test_active = false } in
      let a = cancel_pending_blade_starts t in
      owed-neutral h e (record a { blade = force_off e.steady a.blade }) ∙ owed-cancel h t

  pub owed-end_failed :
      (h : ℕ) (e : Env) (n : Node F) → owed h (end_failed_blade_test e n) ≡ owed h n
  unfolding end_failed_blade_test
  owed-end_failed h e n =
      if_both (λ (x : Node F). owed h x ≡ owed h n)
        (not n.blade_test_active || motion_session_active n) refl (owed-give_up h e n)

  pub owed-end_failed_if :
      (h : ℕ) (b : Bool) (e : Env) (n : Node F) → owed h (end_failed_if b e n) ≡ owed h n
  owed-end_failed_if h b e n =
      if_both (λ (x : Node F). owed h x ≡ owed h n) b (owed-end_failed h e n) refl

  owed-answer :
      (h : ℕ) (transport : Bool) (header : ℕ) (started : ℤ) (r : Result) (n : Node F)
      → owed h (answer transport header started r n) ≡ owed h n + one h header
  unfolding answer
  owed-answer h transport header started r n =
      let q : BladeReply = record {
        header = header;
        revision = n.blade.revision;
        started_ms = started;
      } in
      let i = expecting-append h n.blade_replies q in
      if_both (λ (x : Node F). owed h x ≡ owed h n + one h header)
        (is_pending r && transport && ltb (length n.blade_replies) 32) (omega arith) (omega arith)

  pub owed-request :
      (h : ℕ) (transport : Bool) (header : ℕ) (d : Direction) (started now : ℤ) (n : Node F)
      → owed h (request_blade transport header d started now n) ≡ owed h n + one h header
  unfolding request_blade
  owed-request h transport header d started now n =
      let r = request d now n.blade in
      owed-answer h transport header started r.1 (record n { blade = r.0 })

  owed-start_one :
      (h : ℕ) (e : Env) (stop : Bool) (p : PendingBladeStart) (n : Node F)
      → owed h (start_one e stop p n) ≡ owed h n + one h p.header
  unfolding start_one
  owed-start_one h e stop p n =
      let i = waiting-append h n.pending_blade_starts p in
      let P = λ (x : Node F). owed h x ≡ owed h n + one h p.header in
      if_both P
        (SessionController.failed n.session
          || not n.connected
          || stop
          || overdue e.steady p.started_ms)
        (omega arith)
        (if_both P (SessionController.ready n.session)
          (owed-request h true p.header p.direction p.started_ms e.steady n) (omega arith))

  owed-start_each :
      (h : ℕ) (e : Env) (stop : Bool) (ps : List PendingBladeStart) (n : Node F)
      → owed h (start_each e stop ps n) ≡ owed h n + waiting h ps
  owed-start_each h e stop [] n = omega arith
  owed-start_each h e stop (p ∷ ps) n =
      let i = owed-start_each h e stop ps (start_one e stop p n) in
      let j = owed-start_one h e stop p n in omega arith

  owed-start_pending :
      (h : ℕ) (e : Env) (stop : Bool) (n : Node F) → owed h (start_pending e stop n) ≡ owed h n
  unfolding start_pending
  owed-start_pending h e stop n =
      let m = end_failed_if (start_late e n) e n in
      let i =
        owed-start_each h e stop m.pending_blade_starts (record m { pending_blade_starts = [] }) in
      let j = owed-end_failed_if h (start_late e n) e n in omega arith

  owed-time_out : (h : ℕ) (e : Env) (n : Node F) → owed h (time_out e n) ≡ owed h n
  unfolding time_out
  owed-time_out h e n = if_both (λ (x : Node F). owed h x ≡ owed h n) _ refl refl

  owed-forget_each : (h : ℕ) (l : List (ℕ × ℕ)) (n : Node F) → owed h (forget_each l n) ≡ owed h n
  owed-forget_each h [] n = refl
  owed-forget_each h ((token, id) ∷ l) n =
      owed-forget_each h l _
      ∙ if_both (λ (x : Node F). owed h x ≡ owed h n) (current token n.blade) refl (omega arith)

  owed-reply_one :
      (h : ℕ) (e : Env) (r : BladeReply) (n : Node F)
      → owed h (reply_one e r n) ≡ owed h n + one h r.header
  unfolding reply_one
  owed-reply_one h e r n =
      let i = expecting-append h n.blade_replies r in
      let invalid =
        not (r.revision == n.blade.revision) || n.blade.fault || overdue e.steady r.started_ms in
      if_both (λ (x : Node F). owed h x ≡ owed h n + one h r.header) (invalid || satisfied n.blade)
        (omega arith) (omega arith)

  owed-reply_each :
      (h : ℕ) (e : Env) (rs : List BladeReply) (n : Node F)
      → owed h (reply_each e rs n) ≡ owed h n + expecting h rs
  owed-reply_each h e [] n = omega arith
  owed-reply_each h e (r ∷ rs) n =
      let i = owed-reply_each h e rs (reply_one e r n) in
      let j = owed-reply_one h e r n in omega arith

  owed-reply_all : (h : ℕ) (e : Env) (n : Node F) → owed h (reply_all e n) ≡ owed h n
  unfolding reply_all
  owed-reply_all h e n =
      let i = owed-reply_each h e n.blade_replies (record n { blade_replies = [] }) in omega arith

  owed-permit : (h : ℕ) (e : Env) (n : Node F) → owed h (permit e n) ≡ owed h n
  unfolding permit
  owed-permit h e n =
      owed-end_failed_if h (SessionController.failed n.session || not n.connected) e n

  owed-settle_blade : (h : ℕ) (e : Env) (n : Node F) → owed h (settle_blade e n) ≡ owed h n
  unfolding settle_blade expire_wire forget_blade_rpc
  owed-settle_blade h e n =
      let x = expire_wire e n in
      let p = permit e x in
      let a = start_pending e (emergency e n) p in
      let t = time_out e a in
      let f = forget_blade_rpc t in
      let b = reply_all e f in
      owed-end_failed_if h (is_empty b.pending_blade_starts && is b.blade.requested Direction.off) e
        b
      ∙ owed-reply_all h e f
      ∙ owed-forget_each h t.blade_rpc_ids (record t { blade_rpc_ids = [] })
      ∙ owed-time_out h e a
      ∙ owed-start_pending h e (emergency e n) p
      ∙ owed-permit h e x

  owed-dispatched :
      (h : ℕ) (e : Env) (r : BladeControl × Option BladeTypes.Command) (n : Node F)
      → owed h (dispatched e r n) ≡ owed h n
  owed-dispatched h e (b, none) n = refl
  owed-dispatched h e (b, some c) n =
      if_both (λ (x : Node F). owed h x ≡ owed h n) e.sends (omega arith) refl

  owed-dispatch : (h : ℕ) (e : Env) (n : Node F) → owed h (dispatch e n) ≡ owed h n
  unfolding dispatch
  owed-dispatch h e n =
      if_both (λ (x : Node F). owed h x ≡ owed h n) (not e.ardupilot || not e.command_ready) refl
        (owed-dispatched h e (next e.steady n.blade) n)

  pub owed-drive_blade : (h : ℕ) (e : Env) (n : Node F) → owed h (drive_blade e n) ≡ owed h n
  unfolding drive_blade
  owed-drive_blade h e n = owed-dispatch h e (settle_blade e n) ∙ owed-settle_blade h e n
