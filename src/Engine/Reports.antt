-- ===== src/Engine/Reports.antt =====
-- What ObservationEngine (observation_engine.cpp) reports of a slot is fresh, or marked as invalid.
use mowglimavros.Prelude.{
  ℕ, Bool, true, false, ◌≡◌, arith, refl, if_cases, if_both, ltb, is_some, ◌&&◌, ◌||◌, not, leb,
}
use mowglimavros.Prelude.Int.{ℤ}
use mowglimavros.Prelude.Double.{Double}
use mowglimavros.Engine.Data.{ObservationEngine, EscObservationData, no_data, common}
use mowglimavros.Engine.Config.{fresh, out_of_count}
use mowglimavros.Engine.Report.{esc, common_report, cached_report, silence, inform, informed}

within :
    (connected : Bool) (index : ℕ)
    → (not connected || leb 64 index) ≡ false
    → (connected ≡ true) × (ltb index 64 ≡ true)
within connected index e = (ground arith, ground arith)

module _ (D : Double) where
  open D use {F}

  pub record Honest (index : ℕ) (now : ℤ) (s : ObservationEngine F) (out : EscObservationData F)
      : Type 0 where
    pub valid :
        out.valid ≡ true
        → (s.connected ≡ true) × (ltb index 64 ≡ true) × (fresh D out.stamp_ns now s ≡ true)
    pub invalid :
        out.valid ≡ false
        → (out.rpm_valid ≡ false) × (out.voltage_valid ≡ false) × (out.current_valid ≡ false)

  live-Honest :
      (index : ℕ) (now : ℤ) (s : ObservationEngine F) (out : EscObservationData F)
      → s.connected ≡ true
      → ltb index 64 ≡ true
      → (out.valid ≡ true → fresh D out.stamp_ns now s ≡ true)
      → (out.valid ≡ false
          → (out.rpm_valid ≡ false) × (out.voltage_valid ≡ false) × (out.current_valid ≡ false))
      → Honest index now s out
  live-Honest index now s out c b f q = record { valid = λ e. (c, b, f e); invalid = q }

  no_data-Honest :
      (index : ℕ) (now : ℤ) (s : ObservationEngine F)
      → Honest index now s (record (no_data D) { index = index })
  unfolding no_data
  no_data-Honest index now s = record {
    valid = λ e. ground arith;
    invalid = λ e. (refl, refl, refl);
  }

  common_report-Honest :
      (index : ℕ) (now : ℤ) (s : ObservationEngine F)
      → s.connected ≡ true
      → ltb index 64 ≡ true
      → (s.status index).report.valid ≡ true
      → fresh D (s.status index).report.stamp_ns now s ≡ true
      → Honest index now s (common_report D index now s)
  unfolding common_report inform
  common_report-Honest index now s c b v f =
      let r = (s.status index).report in
      if_both (Honest index now s) _
        (live-Honest index now s (inform D (s.info index) r) c b (λ e. f) (λ e. ground arith))
        (live-Honest index now s r c b (λ e. f) (λ e. ground arith))

  -- The report of a slot without a valid COMMON sample is valid only on fresh legacy telemetry.
  cached_report-fresh :
      (index : ℕ) (now : ℤ) (s : ObservationEngine F)
      → (cached_report D index now s).valid ≡ true
      → fresh D (cached_report D index now s).stamp_ns now s ≡ true
  unfolding cached_report no_data
  cached_report-fresh index now s v = ground arith

  silence-Honest :
      (index : ℕ) (now : ℤ) (s : ObservationEngine F) (out : EscObservationData F)
      → s.connected ≡ true
      → ltb index 64 ≡ true
      → (out.valid ≡ true → fresh D out.stamp_ns now s ≡ true)
      → Honest index now s (silence D out)
  unfolding silence
  silence-Honest index now s out c b f =
      if_cases (Honest index now s) out.valid
        (λ v. live-Honest index now s out c b f (λ e. ground arith))
        (λ v. record { valid = λ e. ground arith; invalid = λ e. (refl, refl, refl) })

  -- Nothing was seen of the slot but its information.
  inform-Honest :
      (index : ℕ) (now : ℤ) (s : ObservationEngine F)
      → (s.status index).seen ≡ false
      → (ltb index 12 && is_some (s.legacy_esc index).count) ≡ false
      → Honest index now s
          (inform D (s.info index) (record (cached_report D index now s) { source = common }))
  unfolding inform cached_report no_data
  inform-Honest index now s a b =
      rw (b, a) (record { valid = λ e. ground arith; invalid = λ e. (refl, refl, refl) })

  -- A report of a slot that is marked as valid comes over a live link, of an existing slot, and was
  -- received within the time-out; in one that is not, speed, voltage and current are marked as not
  -- valid.
  pub esc-Honest :
      (index : ℕ) (now : ℤ) (s : ObservationEngine F) → Honest index now s (esc D index now s)
  unfolding esc
  esc-Honest index now s =
      let c = s.status index in
      let in_count = not (out_of_count s.common_count index) in
      let off = not s.connected || leb 64 index in
      let live = c.seen && c.report.valid && in_count && fresh D c.report.stamp_ns now s in
      let known =
        not c.seen
        && in_count
        && informed D now (s.info index) s
        && not (ltb index 12 && is_some (s.legacy_esc index).count) in
      if_cases (Honest index now s) off (λ e. no_data-Honest index now s)
        (λ e.
          let k = within s.connected index e in
          if_cases (Honest index now s) live
            (λ f. common_report-Honest index now s k.0 k.1 (ground arith) (ground arith))
            (λ f.
              if_cases (Honest index now s) known
                (λ g. inform-Honest index now s (ground arith) (ground arith))
                (λ g.
                  silence-Honest index now s (cached_report D index now s) k.0 k.1
                    (cached_report-fresh index now s))))
