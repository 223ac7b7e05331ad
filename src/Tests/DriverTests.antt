-- ===== src/Tests/DriverTests.antt =====
-- Runs of the drivers' code.
use drone_runner_aws.Base.{
  ◌+◌, ◌*◌, ◌≤◌, String, List, [], ◌∷◌, Bool, true, false, In, Distinct, ◌≡◌, refl, ◌⊎◌, inl, inr,
  arith, mem_text,
}
use drone_runner_aws.Base.Text.{text-differ}
use drone_runner_aws.Types.{Instance, created, in_use, PoolVariant, empty_params}
use drone_runner_aws.Store.Instances.{stamp}
use drone_runner_aws.Store.Outbox.{Outbox}
use drone_runner_aws.Drivers.Provision.{filter_variants, is_fit, has_image}
use drone_runner_aws.Drivers.Provision.Variants.{filter_variants-fit}
use drone_runner_aws.Drivers.Purger.{ids_of, force_delete_leaked}
use drone_runner_aws.Drivers.Purger.Rows.{result, cleanup-spares}
use drone_runner_aws.Drivers.Purger.Sweep.{force_delete_leaked-bound}
use drone_runner_aws.Tests.{request, conn_at, row}

abbrev ubuntu_variant : PoolVariant
ubuntu_variant = record {
  pool = 1;
  limit = 2;
  params = record empty_params { image_name = "ubuntu"; variant_id = "u" };
}

abbrev plain_variant : PoolVariant
plain_variant = record { pool = 1; limit = 2; params = record empty_params { variant_id = "p" } }

ubuntu_chosen :
    In ubuntu_variant (filter_variants (λ s. s) request (plain_variant ∷ ubuntu_variant ∷ []))
unfolding filter_variants
ubuntu_chosen = inl refl

filter_variants-fit_example :
    In ubuntu_variant (plain_variant ∷ ubuntu_variant ∷ [])
    × (is_fit request ubuntu_variant ≡ true)
    × ((request.image_name ≡ "")
        ⊎ (has_image (λ s. s) "ubuntu" ubuntu_variant ≡ true)
        ⊎ ((ubuntu_variant.image_name ≡ "")
            × ((w : PoolVariant)
                → In w (plain_variant ∷ ubuntu_variant ∷ [])
                → is_fit request w ≡ true
                → has_image (λ s. s) "ubuntu" w ≡ false)))
filter_variants-fit_example =
    filter_variants-fit (λ s. s) request (plain_variant ∷ ubuntu_variant ∷ []) ubuntu_variant
      ubuntu_chosen

abbrev mine : Instance
mine = record (stamp (conn_at 100) in_use true (row "vm-2" created 10)) { owner_id = "me" }

abbrev empty : Outbox
empty = record { jobs = []; next_id = 0 }

abbrev busy_rows : List Instance
busy_rows = row "old" in_use 400 ∷ row "new" in_use 900 ∷ []

busy_rows-Distinct : Distinct (ids_of busy_rows)
busy_rows-Distinct = ((text-differ "old" "new" refl, tt), (tt, tt))

abbrev no_failures : List Instance → List String
no_failures rows = []

abbrev all_fail : List Instance → List String
all_fail rows = "old" ∷ "new" ∷ []

abbrev is_old : Instance → Bool
is_old i = mem_text i.id ("old" ∷ [])

cleanup-spares_example :
    In
      (row "new" in_use 900)
      (result (λ n. conn_at 1000) 1000 "linux" no_failures is_old 500 busy_rows)
cleanup-spares_example =
    cleanup-spares (λ n. conn_at 1000) 1000 "linux" no_failures is_old 500 busy_rows
      (row "new" in_use 900) busy_rows-Distinct (inr (inl refl)) refl refl

new_left : In (row "new" in_use 900) (force_delete_leaked (conn_at 1000) 1000 "linux" 200 busy_rows)
unfolding force_delete_leaked
new_left = inl refl

force_delete_leaked-bound_example : 1000 ≤ 900 + 2 * 200
force_delete_leaked-bound_example =
    force_delete_leaked-bound (conn_at 1000) 1000 "linux" 200 busy_rows (row "new" in_use 900) refl
      (λ e. omega (arith, e)) new_left refl
