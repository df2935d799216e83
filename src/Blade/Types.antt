-- ===== src/Blade/Types.antt =====
-- The data of BladeControl in
-- ros2/src/mowgli_mavros_bridge/include/mowgli_mavros_bridge/blade_control.hpp, and its constructor.
-- Milliseconds are integers, with -1 for "never" as in the source.
use mowglimavros.Prelude.{
  ℕ, Bool, true, false, not, ◌&&◌, ◌||◌, Option, none, some, is_some, if◌then◌else◌,
}
use mowglimavros.Prelude.Int.{ℤ, pos, negsuc, ◌-ℤ◌, ltb_ℤ, leb_ℤ}

pub data Direction : Type 0 where
  off forward reverse unknown : Direction

pub data State : Type 0 where
  off fwd rev transition_to_off wait_stop_before_reverse failed : State

pub data Result : Type 0 where
  rejected pending confirmed : Result

-- Channels, pulse widths and periods are int and int64_t.
pub record Config : Type 0 where
  pub channel : ℤ
  pub neutral : ℤ
  pub forward : ℤ
  pub reverse : ℤ
  pub ack_timeout_ms : ℤ
  pub stop_timeout_ms : ℤ
  pub freshness_ms : ℤ
  pub coast_ms : ℤ

pub record Command : Type 0 where
  pub token : ℕ
  pub channel : ℤ
  pub pwm : ℤ
  pub direction : Direction

pub record BladeControl : Type 0 where
  pub config : Config
  pub state : State
  pub requested : Direction
  pub confirmed : Direction
  pub connected : Bool
  pub allowed : Bool
  pub fault : Bool
  pub queued_neutral : Bool
  pub in_flight : Option Command
  pub token : ℕ
  pub revision : ℕ
  pub sent_at : ℤ
  pub neutral_since : ℤ
  pub wait_since : ℤ
  pub stop_since : ℤ
  pub stop_samples : ℕ
  pub sample_source : ℤ
  pub sample_stamp : ℤ
  pub sample_receipt : ℤ
  pub sample_count : ℕ
  pub sample_zero : Bool

-- `a == b` on directions.
abbrev pub is : Direction → Direction → Bool
is Direction.off Direction.off = true
is forward forward = true
is reverse reverse = true
is unknown unknown = true
is _ _ = false

abbrev pub is_waiting : State → Bool
is_waiting wait_stop_before_reverse = true
is_waiting _ = false

abbrev pub on_wire : Option Command → Direction → Bool
on_wire none d = false
on_wire (some c) d = is c.direction d

-- A command other than neutral is on its way: `in_flight_ && in_flight_->direction != Off`.
abbrev pub on_in_flight : Option Command → Bool
on_in_flight none = false
on_in_flight (some c) = not (is c.direction Direction.off)

-- The constructor's test; it throws where this is false.
unfoldable pub config_valid : Config → Bool
config_valid c =
    leb_ℤ (pos 1) c.channel
    && leb_ℤ c.channel (pos 32)
    && leb_ℤ (pos 1000) c.neutral
    && leb_ℤ c.neutral (pos 2000)
    && leb_ℤ (pos 1000) c.forward
    && leb_ℤ c.forward (pos 2000)
    && leb_ℤ (pos 1000) c.reverse
    && leb_ℤ c.reverse (pos 2000)
    && (ltb_ℤ c.forward c.neutral && ltb_ℤ c.neutral c.reverse
        || ltb_ℤ c.reverse c.neutral && ltb_ℤ c.neutral c.forward)
    && ltb_ℤ (pos 0) c.ack_timeout_ms
    && ltb_ℤ c.coast_ms c.stop_timeout_ms
    && ltb_ℤ (pos 0) c.freshness_ms
    && leb_ℤ (pos 1000) c.coast_ms

unfoldable pub initial : Config → BladeControl
initial c = record {
  config = c;
  state = transition_to_off;
  requested = Direction.off;
  confirmed = unknown;
  connected = false;
  allowed = false;
  fault = false;
  queued_neutral = true;
  in_flight = none;
  token = 0;
  revision = 0;
  sent_at = pos 0;
  neutral_since = pos 0;
  wait_since = pos 0;
  stop_since = negsuc 0;
  stop_samples = 0;
  sample_source = negsuc 0;
  sample_stamp = pos 0;
  sample_receipt = negsuc 0;
  sample_count = 0;
  sample_zero = false;
}

-- `none` is the exception std::invalid_argument.
unfoldable pub create : Config → Option BladeControl
unfolding initial config_valid
create c = if config_valid c then some (initial c) else none

-- The newest sample is missing or older than `freshness_ms`.
unfoldable pub sample_stale : ℤ → BladeControl → Bool
sample_stale now s =
    ltb_ℤ s.sample_receipt (pos 0) || ltb_ℤ s.config.freshness_ms (now -ℤ s.sample_receipt)

unfoldable pub satisfied : BladeControl → Bool
satisfied s =
    not s.fault && not (is_some s.in_flight) && not s.queued_neutral && is s.confirmed s.requested

unfoldable pub pwm : Config → Direction → ℤ
pwm c forward = c.forward
pwm c reverse = c.reverse
pwm c _ = c.neutral
