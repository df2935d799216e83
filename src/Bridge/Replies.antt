-- ===== src/Bridge/Replies.antt =====
-- The answers of the service ~/mower_control (mavros_hardware_bridge_node.cpp).
use mowglimavros.Prelude.{ℕ, Bool, true, false, ◌&&◌, List, [], ◌∷◌, ◌++◌, ltb, if◌then◌else◌}
use mowglimavros.Prelude.Int.{ℤ}
use mowglimavros.Blade.Types.{Direction, Result, rejected, pending}
use mowglimavros.Blade.Request.{request}
use mowglimavros.Bridge.Node.{Node, Output, replies, PendingBladeStart, length, send}

abbrev pub is_pending : Result → Bool
is_pending pending = true
is_pending rejected = false
is_pending Result.confirmed = false

abbrev pub is_confirmed : Result → Bool
is_confirmed Result.confirmed = true
is_confirmed rejected = false
is_confirmed pending = false

module _ {F : Type 0} where
  abbrev pub reply_blade : ℕ → Bool → Node F → Node F
  reply_blade header success n = send (replies header success) n

  abbrev pub refuse : List PendingBladeStart → List (Output F) → List (Output F)
  refuse [] out = out
  refuse (p ∷ ps) out = refuse ps (replies p.header false ∷ out)

  unfoldable pub cancel_pending_blade_starts : Node F → Node F
  cancel_pending_blade_starts n = record n {
    sent = refuse n.pending_blade_starts n.sent;
    pending_blade_starts = [];
  }

  -- A request of the blade that waits for its confirmation, or is answered at once.
  unfoldable pub answer : Bool → ℕ → ℤ → Result → Node F → Node F
  answer transport header started r n =
      if is_pending r && transport && ltb (length n.blade_replies) 32
      then record n {
        blade_replies =
            n.blade_replies
            ++ record { header = header; revision = n.blade.revision; started_ms = started } ∷ [];
      }
      else reply_blade header (transport && is_confirmed r) n

  -- `blade_control_.request(…)` and its answer.
  unfoldable pub request_blade : Bool → ℕ → Direction → ℤ → ℤ → Node F → Node F
  unfolding answer
  request_blade transport header direction started now n =
      let (b, r) = request direction now n.blade in
      answer transport header started r (record n { blade = b })
