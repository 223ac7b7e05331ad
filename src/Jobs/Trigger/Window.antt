-- ===== src/Jobs/Trigger/Window.antt =====
-- ScalerTriggerJob.getNextWindowBoundary: where windows begin.
use drone_runner_aws.Base.{
  subst, ap, ap₂, sym, ◌∙◌, ◌≢◌, ℕ, ◌+◌, ◌-◌, ◌*◌, ◌/◌, ◌%◌, ◌≤◌, ◌<◌, none, some, ◌≡◌, arith, ◌==◌,
  if◌then◌else◌,
}
use drone_runner_aws.Jobs.Trigger.{
  TriggerConfig, second, minute, day, boundary_after, next_window_boundary,
}

-- The next multiple of `w` after `t`.
next_multiple : (w t : ℕ) → 0 < w → (t < (t / w + 1) * w) × ((t / w + 1) * w ≤ t + w)
next_multiple w t h = (grind arith, grind arith)

boundary_lem :
    (d w midnight index q : ℕ)
    → d ≡ w * minute
    → midnight ≡ q * day
    → boundary_after d midnight index
      ≡ (q * 86400 + (index + 1) * w * 60, q * 86400 + (index + 1) * w * 60 + w * 60)
boundary_lem d w midnight index q e f =
    let m : d / minute ≡ w = omega (arith, e) in
    rw m (
      ap₂ (λ (a b : ℕ). (a, b)) (ends midnight ((index + 1) * w) f)
        (omega (arith, ends midnight ((index + 1) * w) f, e, f)))
  where
    ends :
        (midnight p : ℕ)
        → midnight ≡ q * day
        → (midnight + p * minute) / second ≡ q * 86400 + p * 60
    ends midnight p f = omega (arith, f)

guarded :
    (m : ℕ) (r : ℕ × ℕ) (start end : ℕ)
    → (if m == 0 then none else some r) ≡ some (start, end)
    → (m ≢ 0) × (r ≡ (start, end))
guarded m r start end e = ground arith

midnight_lem : (now : ℕ) → now - now % day ≡ now / day * day
midnight_lem now = omega arith

-- For a duration of whole minutes, the window after `now` begins after `now` and at most one
-- duration later, and lasts as long as the duration. It begins a whole number of durations after
-- midnight.
pub next_window_boundary-next :
    (c : TriggerConfig) (now w start end : ℕ)
    → c.window_duration ≡ w * minute
    → next_window_boundary c now ≡ some (start, end)
    → (now < start * second)
      × (start * second ≤ now + w * minute)
      × (end ≡ start + w * 60)
      × ((k : ℕ) × (start ≡ now / day * 86400 + k * w * 60))
unfolding next_window_boundary
next_window_boundary-next c now w start end d e =
    let m : c.window_duration / minute ≡ w = omega (arith, d) in
    let n = (now - (now - now % day)) / minute in
    let index = n / (c.window_duration / minute) in
    let (nonzero, f) = guarded (c.window_duration / minute) _ start end e in
    let g =
      sym f
      ∙ boundary_lem c.window_duration w (now - now % day) index (now / day) d (midnight_lem now) in
    let a : start ≡ now / day * 86400 + (index + 1) * w * 60 = ap (λ (r : ℕ × ℕ). r.0) g in
    let b : end ≡ start + w * 60 = ap (λ (r : ℕ × ℕ). r.1) g ∙ ap (λ n. n + w * 60) (sym a) in
    let (lo, hi) = next_multiple (c.window_duration / minute) n (omega (arith, nonzero)) in
    (reach index lo a, limit index hi a, b, (index + 1, a))
  where
    reach :
        (index : ℕ)
        → (now - (now - now % day)) / minute < (index + 1) * (c.window_duration / minute)
        → start ≡ now / day * 86400 + (index + 1) * w * 60
        → now < start * second
    reach index h a =
        let m : c.window_duration / minute ≡ w = omega (arith, d) in
        let h' : (now - (now - now % day)) / minute < (index + 1) * w =
          subst (λ v. (now - (now - now % day)) / minute < (index + 1) * v) m h in
        omega (arith, a, h')

    limit :
        (index : ℕ)
        → (index + 1) * (c.window_duration / minute)
          ≤ (now - (now - now % day)) / minute + c.window_duration / minute
        → start ≡ now / day * 86400 + (index + 1) * w * 60
        → start * second ≤ now + w * minute
    limit index h a =
        let m : c.window_duration / minute ≡ w = omega (arith, d) in
        let h' : (index + 1) * w ≤ (now - (now - now % day)) / minute + w =
          subst (λ v. (index + 1) * v ≤ (now - (now - now % day)) / minute + v) m h in
        omega (arith, a, h')
