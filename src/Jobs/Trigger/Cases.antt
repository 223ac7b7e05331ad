-- ===== src/Jobs/Trigger/Cases.antt =====
-- ScalerTriggerJob.Execute: when a run acts.
use drone_runner_aws.Base.{
  ℕ, List, Bool, true, false, Option, none, some, ◌≢◌, ◌≡◌, refl, sym, ap, ◌∙◌, ◌⊎◌, inl, inr,
  arith, if◌then◌else◌, ◌==◌,
}
use drone_runner_aws.Store.Instances.{Conn}
use drone_runner_aws.Store.Outbox.{Outbox}
use drone_runner_aws.Jobs.Trigger.{
  ScalablePool, TriggerConfig, trigger_pools, is_out_of_reach, execute_at, execute,
  next_window_boundary,
}

guards :
    (on far done : Bool) (skip go r : ℕ × Outbox)
    → (if on then (if far then some skip else if done then some skip else some go) else some skip)
      ≡ some r
    → (r ≡ skip) ⊎ ((on ≡ true) × (far ≡ false) × (done ≡ false) × (r ≡ go))
guards true true done skip go r e = inl cc
guards true false true skip go r e = inl cc
guards true false false skip go r e = inr (refl, refl, refl, cc)
guards false far done skip go r e = inl cc

module _ (net : ℕ → Conn) (others : ℕ → Outbox → Outbox) (c : TriggerConfig)
    (pools : List ScalablePool) (now last last' : ℕ) (o o' : Outbox) where
  pub execute-cases :
      execute net others c pools now last o ≡ some (last', o')
      → ((last' ≡ last) × (o' ≡ o))
        ⊎ ((end : ℕ) × (o' ≡ trigger_pools net others last' end pools o)
            × (next_window_boundary c now ≡ some (last', end))
            × (c.enabled ≡ true)
            × (last' ≢ last)
            × (is_out_of_reach c now last' ≡ false))
  unfolding execute
  execute-cases e = go (next_window_boundary c now) refl e
    where
      go :
          (b : Option (ℕ × ℕ))
          → next_window_boundary c now ≡ b
          → (if c.enabled then execute_at net others c pools now last o b else some (last, o))
            ≡ some (last', o')
          → ((last' ≡ last) × (o' ≡ o))
            ⊎ ((end : ℕ) × (o' ≡ trigger_pools net others last' end pools o)
                × (next_window_boundary c now ≡ some (last', end))
                × (c.enabled ≡ true)
                × (last' ≢ last)
                × (is_out_of_reach c now last' ≡ false))
      go none f e = inl (ground arith)
      go (some (start, end)) f e =
          elim (guards c.enabled (is_out_of_reach c now start) (start == last) (last, o)
            (start, trigger_pools net others start end pools o) (last', o') e) [
              | inl k ↦ inl (ground (arith, k))
              | inr (a, b, d, k) ↦
                  let p : last' ≡ start = ap (λ (r : ℕ × Outbox). r.0) k in
                  let q : o' ≡ trigger_pools net others start end pools o =
                    ap (λ (r : ℕ × Outbox). r.1) k in
                  inr (
                    end,
                    q ∙ ap (λ n. trigger_pools net others n end pools o) (sym p),
                    f ∙ ap (λ n. some (n, end)) (sym p),
                    a,
                    ground (arith, p, d),
                    ap (is_out_of_reach c now) p ∙ b,
                  )
            ]
