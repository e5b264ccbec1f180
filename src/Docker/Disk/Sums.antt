-- ===== src/Docker/Disk/Sums.antt =====
-- docker.py: the disk footprint adds up.
use terminal_status_panel.Base.{
  ℕ, ◌+◌, ◌≤◌, ◌≡◌, refl, inl, inr, Bool, true, not, ◌&&◌, Option, none, some, List, [], ◌∷◌,
  String, arith, filter, sum_of, count_of-le, Bool-cases,
}
use terminal_status_panel.Model.Docker.{DockerDiskUsage}
use terminal_status_panel.Docker.Memory.{or_zero}
use terminal_status_panel.Docker.Disk.{
  Category, DfReply, DfOutcome, failed, not_dict, answered, category_total, set_size,
  has_aggregates, has_lists, or_nil, disk_from_aggregates, disk_from_lists, disk_usage, is_own,
  is_stopped, is_unused, is_used,
}

module _ {A : Type 0} where
  -- What a filter keeps weighs no more than the whole.
  pub sum_of-filter-le :
      (f : A → ℕ) (p : A → Bool) (xs : List A) → sum_of f (filter p xs) ≤ sum_of f xs
  sum_of-filter-le f p [] = omega arith
  sum_of-filter-le f p (x ∷ xs) = ground (arith, sum_of-filter-le f p xs)

  -- A narrower filter keeps no more.
  pub sum_of-filters-le :
      (f : A → ℕ) (p q : A → Bool) (xs : List A)
      → sum_of f (filter (λ x. p x && q x) xs) ≤ sum_of f (filter p xs)
  sum_of-filters-le f p q [] = omega arith
  sum_of-filters-le f p q (x ∷ xs) = ground (arith, sum_of-filters-le f p q xs)

-- The sizes add up to the space used, and no more volumes are unused than there are.
abbrev pub AddsUp : DockerDiskUsage → Type 0
AddsUp u =
    (u.used ≡ u.images + u.containers + u.volumes + u.build_cache)
    × (u.volumes_unused ≤ u.volumes_total)

set_size_total : (c : Option Category) → set_size c 0 ≡ category_total c
set_size_total none = refl
set_size_total (some c) = refl

-- Whatever `/system/df` does: the space used is the sum of the four categories, and no more volumes
-- are unused than there are.
pub disk_usage-AddsUp :
    (host root_dir : Option String) (outcome : DfOutcome)
    → AddsUp (disk_usage host root_dir outcome)
unfolding disk_usage disk_from_aggregates disk_from_lists
disk_usage-AddsUp host root_dir (failed code) = (omega arith, omega arith)
disk_usage-AddsUp host root_dir not_dict = (omega arith, omega arith)
disk_usage-AddsUp host root_dir (answered r) = elim (Bool-cases (has_aggregates r)) [
  | inl e ↦ rw e (
    omega (
      arith,
      set_size_total r.image_usage,
      set_size_total r.container_usage,
      set_size_total r.volume_usage,
      set_size_total r.build_cache_usage,
    ),
    count_of-le is_unused (or_nil r.volumes),
  )
  | inr e ↦ elim (Bool-cases (has_lists r)) [
    | inl f ↦ rw (e, f) (omega arith, count_of-le is_unused (or_nil r.volumes))
    | inr f ↦
        rw (e, f)
          (
            omega (
              arith,
              set_size_total r.image_usage,
              set_size_total r.container_usage,
              set_size_total r.volume_usage,
              set_size_total r.build_cache_usage,
            ),
            omega arith,
          )
  ]
]

-- Of the itemised form no more can be reclaimed than is used, if the images in use share no more
-- than they weigh.
pub disk_from_lists-reclaimable-le :
    (r : DfReply) (u : DockerDiskUsage)
    → has_lists r ≡ true
    → sum_of (λ i. or_zero i.shared_size) (filter is_used (or_nil r.images))
      ≤ sum_of (λ i. or_zero i.size) (filter is_used (or_nil r.images))
    → (disk_from_lists r u).0.reclaimable ≤ (disk_from_lists r u).0.used
unfolding disk_from_lists
disk_from_lists-reclaimable-le r u listed shared = rw listed (
    omega (
      arith,
      shared,
      sum_of-filter-le (λ c. or_zero c.size_rw) is_stopped (or_nil r.containers),
      sum_of-filter-le (λ v. or_zero v.size) is_unused (or_nil r.volumes),
      sum_of-filters-le (λ b. or_zero b.size) is_own (λ b. not b.in_use) (or_nil r.build_cache),
    ))
