-- ===== src/Bridge/Settles.antt =====
-- What the steps of `drive_blade_locked` (mavros_hardware_bridge_node.cpp) after its permission leave
-- as it was.
use mowglimavros.Prelude.{ℕ, Bool, true, refl, List, [], ◌∷◌, if_both}
use mowglimavros.Blade.Request.{force_off, service_timeout}
use mowglimavros.Blade.Transport.{current}
use mowglimavros.Bridge.Node.{Node, Env, PendingBladeStart, BladeReply}
use mowglimavros.Bridge.Blade.{
  end_failed_if, start_one, start_each, start_pending, time_out, forget_each, forget_blade_rpc,
  reply_one, reply_each, reply_all, start_late,
}
use mowglimavros.Bridge.Still.{
  Still, updated-Kept, trans-Still, same-Still, request-Still, end_failed_if-Still,
}

module _ {F : Type 0} where
  start_one-Still :
      (e : Env) (stop : Bool) (p : PendingBladeStart) (n : Node F) → Still n (start_one e stop p n)
  unfolding start_one
  start_one-Still e stop p n =
      if_both (Still n) _
        (record { kept = updated-Kept n; allowed = refl; quiet = λ q. q; calm = λ q. q })
        (if_both (Still n) _ (request-Still true p.header p.direction p.started_ms e.steady n)
          (record { kept = updated-Kept n; allowed = refl; quiet = λ q. q; calm = λ q. q }))

  start_each-Still :
      (e : Env) (stop : Bool) (ps : List PendingBladeStart) (n : Node F)
      → Still n (start_each e stop ps n)
  start_each-Still e stop [] n = same-Still n
  start_each-Still e stop (p ∷ ps) n =
      trans-Still (start_one-Still e stop p n) (start_each-Still e stop ps (start_one e stop p n))

  start_pending-Still : (e : Env) (stop : Bool) (n : Node F) → Still n (start_pending e stop n)
  unfolding start_pending
  start_pending-Still e stop n =
      let m = end_failed_if (start_late e n) e n in
      trans-Still (end_failed_if-Still (start_late e n) e n) (
        trans-Still
          (record { kept = updated-Kept m; allowed = refl; quiet = λ q. q; calm = λ q. q })
          (start_each-Still e stop m.pending_blade_starts (record m { pending_blade_starts = [] })))

  time_out-Still : (e : Env) (n : Node F) → Still n (time_out e n)
  unfolding time_out service_timeout force_off
  time_out-Still e n =
      if_both (Still n) _
        (record { kept = updated-Kept n; allowed = refl; quiet = λ q. q; calm = λ q. q })
        (same-Still n)

  forget_each-Still : (l : List (ℕ × ℕ)) (n : Node F) → Still n (forget_each l n)
  forget_each-Still [] n = same-Still n
  forget_each-Still ((token, id) ∷ l) n =
      trans-Still
        (if_both (Still n) (current token n.blade)
          (record { kept = updated-Kept n; allowed = refl; quiet = λ q. q; calm = λ q. q })
          (record { kept = updated-Kept n; allowed = refl; quiet = λ q. q; calm = λ q. q }))
        (forget_each-Still l _)

  forget-Still : (n : Node F) → Still n (forget_blade_rpc n)
  unfolding forget_blade_rpc
  forget-Still n =
      trans-Still (record { kept = updated-Kept n; allowed = refl; quiet = λ q. q; calm = λ q. q })
        (forget_each-Still n.blade_rpc_ids _)

  reply_one-Still : (e : Env) (r : BladeReply) (n : Node F) → Still n (reply_one e r n)
  unfolding reply_one
  reply_one-Still e r n =
      if_both (Still n) _
        (record { kept = updated-Kept n; allowed = refl; quiet = λ q. q; calm = λ q. q })
        (record { kept = updated-Kept n; allowed = refl; quiet = λ q. q; calm = λ q. q })

  reply_each-Still : (e : Env) (rs : List BladeReply) (n : Node F) → Still n (reply_each e rs n)
  reply_each-Still e [] n = same-Still n
  reply_each-Still e (r ∷ rs) n =
      trans-Still (reply_one-Still e r n) (reply_each-Still e rs (reply_one e r n))

  reply_all-Still : (e : Env) (n : Node F) → Still n (reply_all e n)
  unfolding reply_all
  reply_all-Still e n =
      trans-Still (record { kept = updated-Kept n; allowed = refl; quiet = λ q. q; calm = λ q. q })
        (reply_each-Still e n.blade_replies _)

  -- From the permission on to the end of `settle_blade`.
  pub after_permit-Still :
      (e : Env) (stop : Bool) (b : Bool) (n : Node F)
      → Still n
          (end_failed_if b e (reply_all e (forget_blade_rpc (time_out e (start_pending e stop n)))))
  after_permit-Still e stop b n =
      let a = start_pending e stop n in
      let t = time_out e a in
      let f = forget_blade_rpc t in
      trans-Still (start_pending-Still e stop n) (
        trans-Still (time_out-Still e a) (
          trans-Still (forget-Still t)
            (trans-Still (reply_all-Still e f) (end_failed_if-Still b e (reply_all e f)))))
