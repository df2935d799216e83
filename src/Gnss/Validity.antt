-- ===== src/Gnss/Validity.antt =====
-- When AdapterState (adapter_state.hpp) reports a valid fix.
use Prim.Native.String.{String}
use mowglimavros.Prelude.{true, false, ◌≡◌, ◌≢◌, ◌<◌, ◌≤◌, Option, none, some, [], arith}
use mowglimavros.Prelude.Int.{ℤ, ◌-ℤ◌, ◌≤ℤ◌}
use mowglimavros.Gnss.Status.{
  UniversalValues, UniversalStatus, Status, map_status, map_fix, fix_type_no_fix,
}
use mowglimavros.Gnss.Adapter.{
  AdapterState, is_fresh, adopt, advance, publish, expire, observe_status, invalidate,
}

-- The position was received at or before `now` and at most the time-out ago.
abbrev pub Within : ℤ → ℤ → Option ℤ → Type 0
Within timeout now none = ⊥
Within timeout now (some r) = (r ≤ℤ now) × (now -ℤ r ≤ℤ timeout)

module _ {F M : Type 0} where
  publish_valid :
      (now : ℤ) (s : AdapterState F M)
      → (publish now s).status.fix_valid ≡ true
      → (s.status.fix_valid ≡ true)
        × (0 < s.sequence)
        × Within s.timeout_ns now s.position_receipt
        × (publish now s ≡ s)
  unfolding publish
  publish_valid now s h = ground arith

  timeout-adopt :
      (id incarnation : String) (s : AdapterState F M)
      → (adopt id incarnation s).timeout_ns ≡ s.timeout_ns
  unfolding adopt
  timeout-adopt id incarnation s = ground arith

  -- An expiry is reported once, and only for a fix that was valid and is not fresh; the status is
  -- then not valid, and nothing is pending.
  pub expire_once :
      (now later : ℤ) (s : AdapterState F M) (r : Status M)
      → (expire now s).1 ≡ some r
      → (s.status.fix_valid ≡ true)
        × (is_fresh now s ≡ false)
        × (r.fix_valid ≡ false)
        × (r.fix_type ≡ fix_type_no_fix)
        × ((expire now s).0.pending ≡ [])
        × (expire later (expire now s).0 ≡ ((expire now s).0, none))
  unfolding expire
  expire_once now later s r e = ground arith

  module _ (u : UniversalValues) where
    -- The published status has a valid fix only if the receiver says so, with a kind of fix that is
    -- known and not "no fix", with a sequence number that is not 0 and not below the one before it
    -- of the same identity, and while the position is within the time-out.
    pub observe_status_valid :
        (input : UniversalStatus M) (now : ℤ) (s : AdapterState F M)
        → let t = observe_status u input now s in
          t.status.fix_valid ≡ true
          → (input.fix_valid ≡ true)
            × (map_fix u input.fix_type ≢ fix_type_no_fix)
            × (t.sequence ≡ input.position_observation_sequence)
            × (0 < t.sequence)
            × ((adopt input.source_id input.source_incarnation s).sequence ≤ t.sequence)
            × Within s.timeout_ns now t.position_receipt
    unfolding observe_status advance map_status invalidate
    observe_status_valid input now s h =
        let a = adopt input.source_id input.source_incarnation s in
        let b = advance input now a in
        let c : AdapterState F M = record b {
          status = record (map_status u input b.backend) { stamp_ns = b.position_stamp };
        } in
        ground
          (arith, publish_valid now c, timeout-adopt input.source_id input.source_incarnation s)
