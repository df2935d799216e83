-- ===== src/Gnss/Fixes.antt =====
-- The fixes that AdapterState (adapter_state.hpp) passes on.
use mowglimavros.Prelude.{
  true, false, ◌≡◌, none, some, List, [], ◌∷◌, arith, subst, ◌&&◌, Bool-cases, ◌++◌, ◌≤◌, ◌+◌, ◌-◌,
  inr, inl, Option-cases, refl, ap,
}
use mowglimavros.Prelude.Int.{ℤ, ◌<ℤ◌, leb_ℤ, ◌-ℤ◌}
use mowglimavros.Prelude.Double.{Double}
use mowglimavros.Gnss.Adapter.{
  AdapterState, NavSatFix, accepts, is_fresh, release, withheld, PendingFix, length, push_bounded,
  take_fixes, take_from, drop_front, delivery_wait_ns, cons?,
}

module _ (D : Double) where
  open D use {F}

  -- Strictly later stamps all along, each of them accepted with a valid position, and none without
  -- a fix.
  abbrev pub Released : ℤ → List ℤ → List (NavSatFix F) → Type 0
  Released stamp accepted [] = Unit {0}
  Released stamp accepted (f ∷ fs) =
      (stamp <ℤ f.stamp_ns)
      × (accepts f.stamp_ns accepted ≡ true)
      × (f.no_fix ≡ false)
      × Released f.stamp_ns accepted fs

  Released-shift :
      (fs : List (NavSatFix F)) {a b : ℤ} {x y : List ℤ}
      → a ≡ b
      → x ≡ y
      → Released a x fs
      → Released b y fs
  Released-shift fs {a} {b} {x} {y} p q h =
      subst (λ c. Released c y fs) p (subst (λ z. Released a z fs) q h)

module _ (D : Double) {M : Type 0} where
  open D use {F}

  release-none :
      (now : ℤ) (f : NavSatFix F) (s : AdapterState F M)
      → (release D now f s).1 ≡ none
      → (release D now f s).0 ≡ s
  unfolding release
  release-none now f s e = ground arith

  release-some :
      (now : ℤ) (f o : NavSatFix F) (s : AdapterState F M)
      → (release D now f s).1 ≡ some o
      → (s.last_fix_stamp <ℤ o.stamp_ns)
        × (accepts o.stamp_ns s.accepted_stamps ≡ true)
        × (o.no_fix ≡ false)
        × ((release D now f s).0.last_fix_stamp ≡ o.stamp_ns)
        × ((release D now f s).0.accepted_stamps ≡ s.accepted_stamps)
        × (s.status.fix_valid ≡ true)
        × (is_fresh now s ≡ true)
  unfolding release withheld
  release-some now f o s e = ground arith

  fixes_nil :
      (now : ℤ) (p : PendingFix F) (ps : List (PendingFix F)) (s : AdapterState F M)
      → leb_ℤ delivery_wait_ns (now -ℤ p.receipt_ns) ≡ false
      → (take_from D now (p ∷ ps) s).1 ≡ []
  unfolding take_from
  fixes_nil now p ps s e = rw e

  fixes_cons :
      (now : ℤ) (p : PendingFix F) (ps : List (PendingFix F)) (s : AdapterState F M)
      → leb_ℤ delivery_wait_ns (now -ℤ p.receipt_ns) ≡ true
      → (take_from D now (p ∷ ps) s).1
        ≡ cons? D (release D now p.fix s).1 (take_from D now ps (release D now p.fix s).0).1
  unfolding take_from
  fixes_cons now p ps s e = rw e

  take_from-Released :
      (now : ℤ) (ps : List (PendingFix F)) (s : AdapterState F M)
      → Released D s.last_fix_stamp s.accepted_stamps (take_from D now ps s).1
  take_from-Released now [] s = unfold take_from in tt
  take_from-Released now (p ∷ ps) s =
      elim (Bool-cases (leb_ℤ delivery_wait_ns (now -ℤ p.receipt_ns))) [
        | inr e ↦ rw (fixes_nil now p ps s e) tt
        | inl e ↦
            let t = (release D now p.fix s).0 in
            let rest = take_from-Released now ps t in
            rw (fixes_cons now p ps s e) (elim (Option-cases (release D now p.fix s).1) [
              | inl n ↦ rw n (
                  Released-shift D (take_from D now ps t).1
                    (ap (λ r. r.last_fix_stamp) (release-none now p.fix s n))
                    (ap (λ r. r.accepted_stamps) (release-none now p.fix s n)) rest)
              | inr (o, f) ↦
                  let q = release-some now p.fix o s f in
                  rw f (q.0, q.1, q.2, Released-shift D (take_from D now ps t).1 q.3 q.4 rest)
            ])
      ]

  -- The fixes of one delivery have strictly later stamps one after another and than those before,
  -- each stamp belongs to an accepted position, and none of them is without a fix.
  pub take_fixes-Released :
      (now : ℤ) (s : AdapterState F M)
      → Released D s.last_fix_stamp s.accepted_stamps (take_fixes D now s).1
  unfolding take_fixes
  take_fixes-Released now s = take_from-Released now s.pending s

  stale_none :
      (now : ℤ) (f : NavSatFix F) (s : AdapterState F M)
      → is_fresh now s && s.status.fix_valid ≡ false
      → release D now f s ≡ (s, none)
  unfolding release withheld
  stale_none now f s h = ground arith

  take_from_stale :
      (now : ℤ) (ps : List (PendingFix F)) (s : AdapterState F M)
      → is_fresh now s && s.status.fix_valid ≡ false
      → (take_from D now ps s).1 ≡ []
  take_from_stale now [] s h = unfold take_from in refl
  take_from_stale now (p ∷ ps) s h =
      elim (Bool-cases (leb_ℤ delivery_wait_ns (now -ℤ p.receipt_ns))) [
        | inr e ↦ fixes_nil now p ps s e
        | inl e ↦
            rw (fixes_cons now p ps s e)
              (rw (stale_none now p.fix s h) (take_from_stale now ps s h))
      ]

  -- While the position is stale or the status has no valid fix, no fix is delivered.
  pub take_fixes_stale :
      (now : ℤ) (s : AdapterState F M)
      → is_fresh now s && s.status.fix_valid ≡ false
      → (take_fixes D now s).1 ≡ []
  unfolding take_fixes
  take_fixes_stale now s h = take_from_stale now s.pending s h

length-snoc : {A : Type 0} (x : A) (xs : List A) → length (xs ++ x ∷ []) ≡ length xs + 1
length-snoc x [] = omega arith
length-snoc x (y ∷ ys) = omega (arith, length-snoc x ys)

length-drop_front : {A : Type 0} (xs : List A) → length (drop_front xs) ≡ length xs - 1
length-drop_front [] = omega arith
length-drop_front (x ∷ xs) = omega arith

-- No queue grows above 32 entries: pushing to one within the limit keeps it there.
pub length-push_bounded :
    {A : Type 0} (x : A) (xs : List A) → length xs ≤ 32 → length (push_bounded x xs) ≤ 32
unfolding push_bounded
length-push_bounded x xs h = ground (arith, length-snoc x xs, length-drop_front (xs ++ x ∷ []))
