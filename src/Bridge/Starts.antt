-- ===== src/Bridge/Starts.antt =====
-- When `drive_blade_locked` (mavros_hardware_bridge_node.cpp) sends a command that starts the blade.
use Prim.Native.String.{String}
use mowglimavros.Prelude.{
  Bool, true, false, not, ◌||◌, ◌≡◌, ◌∙◌, ◌⊎◌, inl, inr, refl, sym, arith, Option, none, some,
  if_both, Bool-cases, subst,
}
use mowglimavros.Prelude.Int.{ℤ, pos, leb_ℤ}
use mowglimavros.Blade.Types as BladeTypes
use mowglimavros.Blade.Types.{BladeControl}
use mowglimavros.Blade.Request.{permission, force_off}
use mowglimavros.Blade.Transport.{tick, tick_ack, tick_sample, tick_wait, next}
use mowglimavros.Blade.Calls.{is_on}
use mowglimavros.Blade.Commands.{next_on}
use mowglimavros.Session.Controller as SessionController
use mowglimavros.Session.Controller.{FcuSessionController}
use mowglimavros.Bridge.Node.{Node, Env, emergency, motion_session_active}
use mowglimavros.Bridge.Blade.{
  end_failed_blade_test, end_failed_if, blade_allowed, recent, is_released, expire_wire, permit,
  dispatched, dispatch, settle_blade, drive_blade,
}
use mowglimavros.Bridge.Settles.{after_permit-Still}
use mowglimavros.Bridge.Still.{starts, Kept, trans-Kept, updated-Kept, Still, end_failed_if-Still}

allowed-permission : (a : Bool) (now : ℤ) (s : BladeControl) → (permission a now s).allowed ≡ a
unfolding permission force_off
allowed-permission a now s = ground arith

allowed-tick : (now : ℤ) (s : BladeControl) → (tick now s).allowed ≡ s.allowed
unfolding tick tick_ack tick_sample tick_wait
allowed-tick now s = ground arith

wanted_arm-demand :
    (m : String) (b : Bool) (s : FcuSessionController)
    → (SessionController.demand m false b s).wanted_arm ≡ false
unfolding SessionController.demand
wanted_arm-demand m b s = ground arith

module _ {F : Type 0} where
  -- What a start needs of the node, beside its session: a live link, an armed FCU, mowing enabled,
  -- fresh reports of the FCU and of its safety switch, which is released, no emergency, and a slot.
  pub record Safe (e : Env) (n : Node F) : Type 0 where
    pub mowing_enabled : n.mowing_enabled ≡ true
    pub connected : n.connected ≡ true
    pub armed : n.armed ≡ true
    pub fcu : recent (pos 2500) e.steady n.last_fcu_receipt_ms ≡ true
    pub switch : recent (pos 3000) e.steady n.last_hardware_safety_ms ≡ true
    pub released : is_released n.safety.hardware_safety_state ≡ true
    pub no_emergency : emergency e n ≡ false
    pub slot : leb_ℤ (pos 0) n.blade_esc_slot ≡ true

  blade_allowed-Safe : (e : Env) (n : Node F) → blade_allowed e n ≡ true → Safe e n
  unfolding blade_allowed
  blade_allowed-Safe e n h = ground arith

  pub emergency-Kept : (e : Env) (n m : Node F) → Kept n m → emergency e m ≡ emergency e n
  unfolding emergency
  emergency-Kept e n m k = rw k.safety refl

  pub Kept-Safe : (e : Env) (n m : Node F) → Kept n m → Safe e n → Safe e m
  Kept-Safe e n m k s = record {
    mowing_enabled = k.mowing_enabled ∙ s.mowing_enabled;
    connected = k.connected ∙ s.connected;
    armed = k.armed ∙ s.armed;
    fcu = rw k.fcu_receipt s.fcu;
    switch = rw k.safety_receipt s.switch;
    released = rw k.safety s.released;
    no_emergency = emergency-Kept e n m k ∙ s.no_emergency;
    slot = rw k.blade_slot s.slot;
  }

  -- What `dispatched` sends beside what was sent.
  abbrev Sends : BladeControl × Option BladeTypes.Command → Node F → Node F → Type 0
  Sends r n m =
      starts m.sent ≡ true
      → (starts n.sent ≡ true)
        ⊎ ((c : BladeTypes.Command) × ((r.1 ≡ some c) × (is_on c.direction ≡ true)))

  dispatched-Sends :
      (e : Env) (r : BladeControl × Option BladeTypes.Command) (n : Node F)
      → Sends r n (dispatched e r n)
  dispatched-Sends e (b, none) n = λ h. inl h
  dispatched-Sends e (b, some c) n =
      if_both (Sends (b, some c) n) e.sends
        (λ h. elim (Bool-cases (is_on c.direction)) [
          | inl o ↦ inr (c, (refl, o))
          | inr o ↦ inl (ground arith)
        ])
        (λ h. inl h)

  dispatched-Kept :
      (e : Env) (r : BladeControl × Option BladeTypes.Command) (n : Node F)
      → Kept n (dispatched e r n)
  dispatched-Kept e (b, none) n = updated-Kept n
  dispatched-Kept e (b, some c) n = if_both (Kept n) e.sends (updated-Kept n) (updated-Kept n)

  dispatch-Kept : (e : Env) (n : Node F) → Kept n (dispatch e n)
  unfolding dispatch
  dispatch-Kept e n =
      if_both (Kept n) _ (updated-Kept n) (dispatched-Kept e (next e.steady n.blade) n)

  abbrev NeedsPermission : Node F → Node F → Type 0
  NeedsPermission n m = starts m.sent ≡ true → (starts n.sent ≡ true) ⊎ (n.blade.allowed ≡ true)

  dispatch-NeedsPermission : (e : Env) (n : Node F) → NeedsPermission n (dispatch e n)
  unfolding dispatch
  dispatch-NeedsPermission e n =
      if_both (NeedsPermission n) (not e.ardupilot || not e.command_ready) (λ h. inl h)
        (λ h. elim (dispatched-Sends e (next e.steady n.blade) n h) [
          | inl q ↦ inl q
          | inr (c, (q, o)) ↦ inr (next_on e.steady n.blade c q o).allowed
        ])

  unarmed :
      (e : Env) (n : Node F) {P : Type 0}
      → n.session.wanted_arm ≡ false
      → blade_allowed e n ≡ true
      → P
  unfolding blade_allowed
  unarmed e n w h = ground arith

  permit-Kept : (e : Env) (n : Node F) → Kept n (permit e n)
  unfolding permit
  permit-Kept e n =
      let b = SessionController.failed n.session || not n.connected in
      trans-Kept (end_failed_if-Still b e n).kept (updated-Kept (end_failed_if b e n))

  abbrev no_test : Node F → Bool
  no_test n = not n.blade_test_active || motion_session_active n

  wanted_arm-end_failed :
      (e : Env) (n : Node F)
      → no_test n ≡ false
      → (end_failed_blade_test e n).session.wanted_arm ≡ false
  unfolding end_failed_blade_test
  wanted_arm-end_failed e n q = rw q (wanted_arm-demand "HOLD" _ _)

  end_failed_unchanged : (e : Env) (n : Node F) → no_test n ≡ true → end_failed_blade_test e n ≡ n
  unfolding end_failed_blade_test
  end_failed_unchanged e n q = rw q refl

  -- A blade test that ends leaves no permission.
  end_failed_disallows :
      (e : Env) (n : Node F)
      → blade_allowed e (end_failed_blade_test e n) ≡ true
      → blade_allowed e n ≡ true
  end_failed_disallows e n h = elim (Bool-cases (no_test n)) [
    | inl q ↦ subst (λ m. blade_allowed e m ≡ true) (end_failed_unchanged e n q) h
    | inr q ↦ unarmed e (end_failed_blade_test e n) (wanted_arm-end_failed e n q) h
  ]

  permit_allowed :
      (e : Env) (n : Node F) → (permit e n).blade.allowed ≡ true → blade_allowed e n ≡ true
  unfolding permit
  permit_allowed e n h =
      let b = SessionController.failed n.session || not n.connected in
      let m = end_failed_if b e n in
      let a = blade_allowed e m in
      let q : a ≡ true =
        sym (
          allowed-tick e.steady (permission a e.steady m.blade)
          ∙ allowed-permission a e.steady m.blade)
        ∙ h in
      if_both (λ (x : Node F). blade_allowed e x ≡ true → blade_allowed e n ≡ true) b
        (end_failed_disallows e n) (λ p. p) q

  permit_quiet : (e : Env) (n : Node F) → starts (permit e n).sent ≡ true → starts n.sent ≡ true
  unfolding permit
  permit_quiet e n h =
      let b = SessionController.failed n.session || not n.connected in
      (end_failed_if-Still b e n).quiet h

  blade_allowed-expire :
      (e : Env) (n : Node F) → blade_allowed e (expire_wire e n) ≡ blade_allowed e n
  unfolding blade_allowed expire_wire emergency
  blade_allowed-expire e n = refl

  -- `settle_blade` is its permission, and steps that do not touch it.
  settle_blade-Still :
      (e : Env) (n : Node F) → Still (permit e (expire_wire e n)) (settle_blade e n)
  unfolding settle_blade
  settle_blade-Still e n = after_permit-Still e (emergency e n) _ (permit e (expire_wire e n))

  expire_wire-Kept : (e : Env) (n : Node F) → Kept n (expire_wire e n)
  unfolding expire_wire
  expire_wire-Kept e n = updated-Kept n

  pub drive_blade-Kept : (e : Env) (n : Node F) → Kept n (drive_blade e n)
  unfolding drive_blade
  drive_blade-Kept e n = trans-Kept (expire_wire-Kept e n) (
      trans-Kept (permit-Kept e (expire_wire e n))
        (trans-Kept (settle_blade-Still e n).kept (dispatch-Kept e (settle_blade e n))))

  settle_quiet :
      (e : Env) (n : Node F) → starts (settle_blade e n).sent ≡ true → starts n.sent ≡ true
  unfolding expire_wire
  settle_quiet e n h = permit_quiet e (expire_wire e n) ((settle_blade-Still e n).quiet h)

  settle_allowed :
      (e : Env) (n : Node F) → (settle_blade e n).blade.allowed ≡ true → blade_allowed e n ≡ true
  settle_allowed e n h =
      sym (blade_allowed-expire e n)
      ∙ permit_allowed e (expire_wire e n) (sym (settle_blade-Still e n).allowed ∙ h)

  pub silent_starts : {P : Type 0} (n : Node F) → starts n.sent ≡ true → starts n.sent ≡ false → P
  silent_starts n s q = ground arith

  session_allowed :
      (e : Env) (n : Node F)
      → blade_allowed e n ≡ true
      → (SessionController.ready n.session ≡ true) × (n.session.wanted_arm ≡ true)
  unfolding blade_allowed
  session_allowed e n h = (ground arith, ground arith)

  -- Where `drive_blade_locked` sends a command that starts the blade, the state it was called in
  -- allows it: the session is ready and asks for an armed FCU, mowing is enabled, the link is live
  -- and the FCU armed, the state of the FCU is at most 2.5 seconds old and that of the safety switch
  -- at most 3, the switch is released, there is no emergency, and the blade has a slot.
  pub drive_blade-starts :
      (e : Env) (n : Node F)
      → starts n.sent ≡ false
      → starts (drive_blade e n).sent ≡ true
      → (SessionController.ready n.session ≡ true) × (n.session.wanted_arm ≡ true) × Safe e n
  unfolding drive_blade
  drive_blade-starts e n q h = elim (dispatch-NeedsPermission e (settle_blade e n) h) [
    | inl s ↦ silent_starts n (settle_quiet e n s) q
    | inr a ↦
        let p = settle_allowed e n a in
        ((session_allowed e n p).0, (session_allowed e n p).1, blade_allowed-Safe e n p)
  ]

  pub drive_blade_guarded :
      (e : Env) (n : Node F)
      → starts (drive_blade e n).sent ≡ true
      → (starts n.sent ≡ true) ⊎ Safe e (drive_blade e n)
  drive_blade_guarded e n h = elim (Bool-cases (starts n.sent)) [
    | inl q ↦ inl q
    | inr q ↦
        inr (Kept-Safe e n (drive_blade e n) (drive_blade-Kept e n) (drive_blade-starts e n q h).2)
  ]
