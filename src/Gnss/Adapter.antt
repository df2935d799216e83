-- ===== src/Gnss/Adapter.antt =====
-- AdapterState of ros2/src/mavros_gnss_adapter/include/mavros_gnss_adapter/adapter_state.hpp. A deque
-- is a list, its front first; a stamp is in nanoseconds.
use Prim.Native.String.{String, ◌++◌ as append}
use text.Mathlib.Text.{◌==◌ as str_eq}
use mowglimavros.Prelude.{
  ℕ, suc, ◌+◌, Bool, false, not, ◌&&◌, ◌||◌, Option, none, some, List, [], ◌∷◌, ◌++◌, ltb, ◌==◌,
  if◌then◌else◌,
}
use mowglimavros.Prelude.Int.{ℤ, pos, pos_part, neg_part, ◌-ℤ◌, leb_ℤ, eqb_ℤ}
use mowglimavros.Prelude.Double.{Double}
use mowglimavros.Gnss.Status.{
  UniversalValues, UniversalStatus, Status, fix_type_no_fix, rtk_mode_unknown, map_status,
}

-- `none` is the exception std::invalid_argument.
unfoldable pub canonical_enabled : String → String → Option Bool
canonical_enabled mode source =
    if (not (str_eq mode "mavros") && not (str_eq mode "direct"))
      || (not (str_eq source "gps1") && not (str_eq source "gps2"))
    then none
    else some (str_eq mode "mavros")

pub record AltitudeSample (F : Type 0) : Type 0 where
  pub receipt_ros_ns : ℤ
  pub latitude_e7 : ℤ
  pub longitude_e7 : ℤ
  pub altitude_msl_mm : ℤ
  pub ellipsoid_m : Option F

-- The fields of sensor_msgs/NavSatFix that the adapter reads or writes; `no_fix` is its status
-- STATUS_NO_FIX.
pub record NavSatFix (F : Type 0) : Type 0 where
  pub stamp_ns : ℤ
  pub frame_id : String
  pub no_fix : Bool
  pub latitude : F
  pub longitude : F
  pub altitude : F

pub record PendingFix (F : Type 0) : Type 0 where
  pub fix : NavSatFix F
  pub receipt_ns : ℤ

pub record AdapterState (F M : Type 0) : Type 0 where
  pub backend : String
  pub timeout_ns : ℤ
  pub identity : String
  pub sequence : ℕ
  pub position_stamp : ℤ
  pub position_receipt : Option ℤ
  pub last_fix_stamp : ℤ
  pub status : Status M
  pub accepted_stamps : List ℤ
  pub altitudes : List (AltitudeSample F)
  pub pending : List (PendingFix F)

abbrev pub pair_tolerance_ns : ℤ
pair_tolerance_ns = pos 20000000

abbrev pub delivery_wait_ns : ℤ
delivery_wait_ns = pos 100000000

abbrev pub abs_ℤ : ℤ → ℤ
abs_ℤ a = pos (pos_part a + neg_part a)

module _ {ℓ} {A : Type ℓ} where
  abbrev pub length : List A → ℕ
  length [] = 0
  length (x ∷ xs) = suc (length xs)

  abbrev pub drop_front : List A → List A
  drop_front [] = []
  drop_front (x ∷ xs) = xs

  -- `push_back`, then `pop_front` above 32 entries.
  unfoldable pub push_bounded : A → List A → List A
  push_bounded x xs = let l = xs ++ x ∷ [] in if ltb 32 (length l) then drop_front l else l

-- `std::find(…) != end()`.
unfoldable pub accepts : ℤ → List ℤ → Bool
accepts stamp [] = false
accepts stamp (x ∷ xs) = eqb_ℤ x stamp || accepts stamp xs

abbrev pub identify : String → String → String
identify source_id source_incarnation = append source_id (append "/" source_incarnation)

unfoldable pub fresh : ℕ → Option ℤ → ℤ → ℤ → Bool
fresh sequence none timeout now = false
fresh sequence (some receipt) timeout now =
    not (sequence == 0) && leb_ℤ receipt now && leb_ℤ (now -ℤ receipt) timeout

module _ {F M : Type 0} where
  -- The constructor, from the `Status{}` of the message; `none` is std::invalid_argument.
  unfoldable pub create : Status M → String → ℤ → Option (AdapterState F M)
  create empty source timeout_ns =
      if leb_ℤ timeout_ns (pos 0)
      then none
      else some (record {
        backend = source;
        timeout_ns = timeout_ns;
        identity = "";
        sequence = 0;
        position_stamp = pos 0;
        position_receipt = none;
        last_fix_stamp = pos 0;
        status = empty;
        accepted_stamps = [];
        altitudes = [];
        pending = [];
      })

  unfoldable pub is_fresh : ℤ → AdapterState F M → Bool
  unfolding fresh
  is_fresh now s = fresh s.sequence s.position_receipt s.timeout_ns now

  unfoldable pub invalidate : AdapterState F M → AdapterState F M
  invalidate s = record s {
    status = record (s.status) {
      fix_valid = false;
      fix_type = fix_type_no_fix;
      rtk_mode = rtk_mode_unknown;
      value_flags = 0;
      differential_corrections = false;
      corrections_active = false;
      dead_reckoning = false;
    };
  }

  -- A new identity: what is queued from an earlier one is dropped.
  unfoldable pub adopt : String → String → AdapterState F M → AdapterState F M
  adopt id incarnation s = if str_eq (identify id incarnation) s.identity then s else record s {
    pending = if not (str_eq s.identity "") then [] else s.pending;
    altitudes = if not (str_eq s.identity "") then [] else s.altitudes;
    accepted_stamps = if not (str_eq s.identity "") then [] else s.accepted_stamps;
    identity = identify id incarnation;
    sequence = 0;
    position_receipt = none;
    position_stamp = pos 0;
    last_fix_stamp = pos 0;
  }

  -- A new position observation.
  unfoldable pub advance : UniversalStatus M → ℤ → AdapterState F M → AdapterState F M
  advance input steady_ns s =
      if input.position_observation_sequence == s.sequence then s else record s {
        sequence = input.position_observation_sequence;
        position_stamp = input.stamp_ns;
        position_receipt = some steady_ns;
        accepted_stamps = push_bounded input.stamp_ns s.accepted_stamps;
      }

  -- The tail of `observe_status`, once the status is mapped.
  unfoldable pub publish : ℤ → AdapterState F M → AdapterState F M
  unfolding is_fresh invalidate
  publish steady_ns s =
      let t = if is_fresh steady_ns s then s else invalidate s in
      if t.status.fix_valid then t else record t { accepted_stamps = []; pending = [] }

  unfoldable pub expire : ℤ → AdapterState F M → AdapterState F M × Option (Status M)
  unfolding is_fresh invalidate
  expire steady_ns s =
      if not (is_fresh steady_ns s) && s.status.fix_valid
      then (record (invalidate s) { pending = []; altitudes = [] }, some (invalidate s).status)
      else (s, none)

  unfoldable pub observe_altitude : AltitudeSample F → AdapterState F M → AdapterState F M
  observe_altitude sample s = record s { altitudes = push_bounded sample s.altitudes }

  unfoldable pub observe_fix : NavSatFix F → ℤ → AdapterState F M → AdapterState F M
  observe_fix fix steady_ns s = record s {
    pending = push_bounded (record { fix = fix; receipt_ns = steady_ns }) s.pending;
  }

  module _ (u : UniversalValues) where
    unfoldable pub observe_status : UniversalStatus M → ℤ → AdapterState F M → AdapterState F M
    observe_status input steady_ns s =
        let a = adopt input.source_id input.source_incarnation s in
        if ltb input.position_observation_sequence a.sequence
        then invalidate a
        else let b = advance input steady_ns a in
          publish steady_ns (record b {
            status = record (map_status u input b.backend) { stamp_ns = b.position_stamp };
          })

module _ (D : Double) where
  open D use {F, nan, of_int, lt, minus, over, magnitude}

  abbrev near : F → F → F → Bool
  near a b tolerance = lt (magnitude (minus a b)) tolerance

  -- The same dispatch by time and position: within 20 ms, half a unit of 1e-7 degrees, half a
  -- millimetre.
  unfoldable pub pairs : NavSatFix F → AltitudeSample F → Bool
  pairs fix a =
      leb_ℤ (abs_ℤ (a.receipt_ros_ns -ℤ fix.stamp_ns)) pair_tolerance_ns
      && near fix.latitude (over (of_int a.latitude_e7) (of_int (pos 10000000)))
          (over (of_int (pos 5)) (of_int (pos 100000000)))
      && near fix.longitude (over (of_int a.longitude_e7) (of_int (pos 10000000)))
          (over (of_int (pos 5)) (of_int (pos 100000000)))
      && near fix.altitude (over (of_int a.altitude_msl_mm) (of_int (pos 1000)))
          (over (of_int (pos 5)) (of_int (pos 10000)))

  unfoldable pub matches : NavSatFix F → List (AltitudeSample F) → List (AltitudeSample F)
  matches fix [] = []
  matches fix (a ∷ rest) = if pairs fix a then a ∷ matches fix rest else matches fix rest

  -- Without the samples that pair with the fix: called where one does.
  unfoldable pub unmatched : NavSatFix F → List (AltitudeSample F) → List (AltitudeSample F)
  unmatched fix [] = []
  unmatched fix (a ∷ rest) = if pairs fix a then unmatched fix rest else a ∷ unmatched fix rest

  abbrev or_nan : Option F → F
  or_nan none = nan
  or_nan (some v) = v

  -- The height above the ellipsoid of a unique match, and the samples that are left.
  unfoldable pub height :
      List (AltitudeSample F)
      → List (AltitudeSample F)
      → List (AltitudeSample F)
      → F × List (AltitudeSample F)
  height (a ∷ []) rest all = (or_nan a.ellipsoid_m, rest)
  height _ rest all = (nan, all)

  abbrev pub cons? : Option (NavSatFix F) → List (NavSatFix F) → List (NavSatFix F)
  cons? none l = l
  cons? (some f) l = f ∷ l

module _ (D : Double) {M : Type 0} where
  open D use {F}

  -- The guard of one round of `take_fixes`.
  unfoldable pub withheld : ℤ → NavSatFix F → AdapterState F M → Bool
  withheld steady_ns fix s =
      not (is_fresh steady_ns s)
      || not s.status.fix_valid
      || not (accepts fix.stamp_ns s.accepted_stamps)
      || leb_ℤ fix.stamp_ns s.last_fix_stamp
      || fix.no_fix

  unfoldable pub release :
      ℤ → NavSatFix F → AdapterState F M → AdapterState F M × Option (NavSatFix F)
  release steady_ns fix s =
      let (altitude, left) =
        height D (matches D fix s.altitudes) (unmatched D fix s.altitudes) s.altitudes in
      if withheld steady_ns fix s then (s, none) else (
        record s { altitudes = left; last_fix_stamp = fix.stamp_ns },
        some (record fix { altitude = altitude; frame_id = "gps_link" }),
      )

  -- The loop over the queue: it stops at the first fix that has not waited long enough.
  unfoldable pub take_from :
      ℤ → List (PendingFix F) → AdapterState F M → AdapterState F M × List (NavSatFix F)
  take_from steady_ns [] s = (record s { pending = [] }, [])
  take_from steady_ns (p ∷ ps) s =
      let (t, o) = release steady_ns p.fix s in
      let rest = take_from steady_ns ps t in
      if leb_ℤ delivery_wait_ns (steady_ns -ℤ p.receipt_ns)
      then (rest.0, cons? D o rest.1)
      else (record s { pending = p ∷ ps }, [])

  unfoldable pub take_fixes : ℤ → AdapterState F M → AdapterState F M × List (NavSatFix F)
  take_fixes steady_ns s = take_from steady_ns s.pending s
