-- ===== src/Jobs/Scaler/Down.antt =====
-- Scaler.scaleDown: what it destroys.
use drone_runner_aws.Base.{
  ℕ, zero, suc, String, List, [], ◌∷◌, true, false, In, ◌≢◌, eq_iff, ◌≡◌, refl, arith, ◌⊎◌, inl,
  inr,
}
use drone_runner_aws.Types.{
  Instance, InstanceState, created, hibernating, terminating, predictor, mem_state,
}
use drone_runner_aws.Store.Instances.{Conn, is_candidate, stamp, set_row, unset_or}
use drone_runner_aws.Store.Instances.Claim.{matches_claim-All, find_and_claim-cases}
use drone_runner_aws.Jobs.Scaler.{Services, InstanceKey, down_query, scale_down}

-- What may be destroyed: a free instance that the predictor had made, of this pool and key.
abbrev pub Expendable : String → InstanceKey → Instance → Type 0
Expendable pool k i =
    (i.pool ≡ pool)
    × (i.source ≡ predictor)
    × (i.gpu ≡ false)
    × (k.image_name ≢ "" → i.image ≡ k.image_name)
    × (k.variant_id ≢ "" → i.variant_id ≡ k.variant_id)
    × (k.tenant_id ≢ "" → i.tenant_id ≡ k.tenant_id)
    × ((i.state ≡ created) ⊎ (i.state ≡ hibernating))

-- At most so many destructions, one after the other, each of an instance that may be destroyed and
-- was marked as terminating first.
pub data Destroys (s : Services) (pool : String) (k : InstanceKey)
    : ℕ → List Instance → List Instance → Type 0 where
  stop : (n : ℕ) (rows : List Instance) → Destroys s pool k n rows rows
  next :
      (n : ℕ) (c : Conn) (i : Instance) (rows rows' : List Instance)
      → In i rows
      → Expendable pool k i
      → Destroys s pool k n
          (s.destroy
            (stamp c terminating false i)
            (set_row i.id (stamp c terminating false) rows)).1
          rows'
      → Destroys s pool k (suc n) rows rows'

Expendable-candidate :
    (c : Conn) (pool : String) (k : InstanceKey) (i : Instance)
    → is_candidate c (down_query pool k) (created ∷ hibernating ∷ []) i ≡ true
    → Expendable pool k i
Expendable-candidate c pool k i e =
    let m = matches_claim-All (down_query pool k) (created ∷ hibernating ∷ []) i (ground arith) in
    let (pool_same, (_, (_, (image, (_, (_, (gpu, (variant, (tenant, (state, (source, _))))))))))) =
      m in
    (
      ground (arith, eq_iff i.pool pool),
      ground arith,
      ground arith,
      unset_or_lem k.image_name i.image image,
      unset_or_lem k.variant_id i.variant_id variant,
      unset_or_lem k.tenant_id i.tenant_id tenant,
      state_lem i.state state,
    )
  where
    unset_or_lem :
        (wanted column : String) → unset_or wanted column ≡ true → wanted ≢ "" → column ≡ wanted
    unset_or_lem wanted column h n = ground (arith, eq_iff wanted "", eq_iff column wanted)

    state_lem :
        (s : InstanceState)
        → mem_state s (created ∷ hibernating ∷ []) ≡ true
        → (s ≡ created) ⊎ (s ≡ hibernating)
    state_lem created h = inl refl
    state_lem InstanceState.in_use h = cc
    state_lem hibernating h = inr refl
    state_lem terminating h = cc
    state_lem InstanceState.provisioning h = cc

-- Whatever the calls answer, at most `count` instances are destroyed, one after the other, and each
-- of them was free, had been made by the predictor, and was of the wanted pool and key.
pub scale_down-Destroys :
    (s : Services) (net : ℕ → Conn) (pool : String) (k : InstanceKey) (count : ℕ)
    (rows : List Instance)
    → Destroys s pool k count rows (scale_down s net pool k count rows)
unfolding scale_down
scale_down-Destroys s net pool k zero rows = stop 0 rows
scale_down-Destroys s net pool k (suc count) rows =
    elim (find_and_claim-cases (net 0) (down_query pool k) terminating (created ∷ hibernating ∷ [])
      false rows) [
        | inl (e, h) ↦ rw h (stop (suc count) rows)
        | inr (i, claimed, h, (j, m, t, _, same, same')) ↦
            rw (h, same, same')
              (next count (net 0) j rows _ m (Expendable-candidate (net 0) pool k j t)
                (scale_down-Destroys s (λ n. net (suc n)) pool k count _))
      ]
