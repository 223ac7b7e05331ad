-- ===== src/Jobs/Scaler/Counts.antt =====
-- Scaler.getFreeInstanceCountsForPool: the counts by tenant, variant and image.
use drone_runner_aws.Base.{
  ℕ, ◌+◌, List, [], ◌∷◌, true, ◌&&◌, ◌≡◌, arith, eq_iff, eq_refl, length, keep, if◌then◌else◌,
}
use drone_runner_aws.Types.{Instance}
use drone_runner_aws.Jobs.Scaler.{
  InstanceKey, same_key, count_of, increment, key_of, is_free, count_free,
}

same_key_iff : (k l : InstanceKey) → same_key k l ≡ true → k ≡ l
same_key_iff k l h = ground (
  arith,
  eq_iff k.tenant_id l.tenant_id,
  eq_iff k.variant_id l.variant_id,
  eq_iff k.image_name l.image_name,
)

count_of-increment :
    (k l : InstanceKey) (counts : List (InstanceKey × ℕ))
    → count_of k (increment l counts) ≡ (if same_key l k then 1 else 0) + count_of k counts
unfolding count_of increment
count_of-increment k l [] = ground arith
count_of-increment k l ((m, n) ∷ counts) = ground (
  arith,
  count_of-increment k l counts,
  same_key_iff m l,
  same_key_iff m k,
  same_key_iff l k,
  eq_refl k.tenant_id,
  eq_refl k.variant_id,
  eq_refl k.image_name,
)

-- The count of a key is the number of free instances of that key, where an instance without a
-- tenant is one of the default tenant.
pub count_free-count :
    (k : InstanceKey) (rows : List Instance) (counts : List (InstanceKey × ℕ))
    → count_of k (count_free rows counts)
      ≡ count_of k counts + length (keep (λ i. is_free i && same_key (key_of i) k) rows)
unfolding count_free
count_free-count k [] counts = omega arith
count_free-count k (i ∷ rows) counts = ground (
  arith,
  count_free-count k rows counts,
  count_free-count k rows (increment (key_of i) counts),
  count_of-increment k (key_of i) counts,
)
