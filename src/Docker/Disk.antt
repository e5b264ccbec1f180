-- ===== src/Docker/Disk.antt =====
-- docker.py: Docker's disk footprint, from either form of the answer to `/system/df`.
pub mod Sums
mod Tests
use terminal_status_panel.Base.{
  ℕ, ◌+◌, ◌-◌, Bool, true, false, not, ◌&&◌, ◌||◌, Option, none, some, List, [], ◌∷◌, String, ◌==◌,
  length, filter, sum_of, count_of, is_some, if◌then◌else◌,
}
use terminal_status_panel.Model.Docker.{DockerDiskUsage}
use terminal_status_panel.Docker.Memory.{or_zero}
use terminal_status_panel.Docker.Nodes.{is_text}

-- No size in an answer is negative.
-- A category of the aggregated form: `TotalSize` and `Reclaimable`.
pub record Category : Type 0 where
  pub total : Option ℕ
  pub reclaimable : Option ℕ

pub record DfImage : Type 0 where
  pub size : Option ℕ
  pub shared_size : Option ℕ
  pub containers : ℕ

pub record DfContainer : Type 0 where
  pub size_rw : Option ℕ
  pub state : Option String

-- A volume: the fields of its `UsageData`.
pub record DfVolume : Type 0 where
  pub size : Option ℕ
  pub ref_count : Option ℕ

pub record DfCache : Type 0 where
  pub size : Option ℕ
  pub shared : Bool
  pub in_use : Bool

-- The answer, with `none` for a key that is absent.
pub record DfReply : Type 0 where
  pub image_usage : Option Category
  pub container_usage : Option Category
  pub volume_usage : Option Category
  pub build_cache_usage : Option Category
  pub layers_size : Option ℕ
  pub images : Option (List DfImage)
  pub containers : Option (List DfContainer)
  pub volumes : Option (List DfVolume)
  pub build_cache : Option (List DfCache)

abbrev pub category_total : Option Category → ℕ
category_total none = 0
category_total (some c) = or_zero c.total

abbrev pub category_reclaimable : Option Category → ℕ
category_reclaimable none = 0
category_reclaimable (some c) = or_zero c.reclaimable

abbrev pub has_aggregates : DfReply → Bool
has_aggregates r =
    is_some r.image_usage
    || is_some r.container_usage
    || is_some r.volume_usage
    || is_some r.build_cache_usage

-- `setattr(usage, attribute, size)`, for a category that is there.
abbrev pub set_size : Option Category → ℕ → ℕ
set_size none old = old
set_size (some c) old = or_zero c.total

-- `_disk_from_aggregates`, with whether any category was there.
pub disk_from_aggregates : DfReply → DockerDiskUsage → DockerDiskUsage × Bool
disk_from_aggregates r u = (
  record u {
    images = set_size r.image_usage u.images;
    containers = set_size r.container_usage u.containers;
    volumes = set_size r.volume_usage u.volumes;
    build_cache = set_size r.build_cache_usage u.build_cache;
    used =
        u.used
        + category_total r.image_usage
        + category_total r.container_usage
        + category_total r.volume_usage
        + category_total r.build_cache_usage;
    reclaimable =
        u.reclaimable
        + category_reclaimable r.image_usage
        + category_reclaimable r.container_usage
        + category_reclaimable r.volume_usage
        + category_reclaimable r.build_cache_usage;
  },
  has_aggregates r,
)

module _ {A : Type 0} where
  -- `xs or []`
  abbrev pub or_nil : Option (List A) → List A
  or_nil none = []
  or_nil (some xs) = xs

abbrev pub is_used : DfImage → Bool
is_used i = not (i.containers == 0)

abbrev pub is_stopped : DfContainer → Bool
is_stopped c = not (is_text c.state "running")

-- `RefCount == 0`, where a missing count is -1.
abbrev pub is_unused : DfVolume → Bool
is_unused v = elim v.ref_count [ none ↦ false | some n ↦ n == 0 ]

abbrev pub is_own : DfCache → Bool
is_own b = not b.shared

abbrev pub is_free : DfCache → Bool
is_free b = not b.shared && not b.in_use

abbrev pub has_lists : DfReply → Bool
has_lists r = is_some r.images || is_some r.containers || is_some r.volumes || is_some r.build_cache

-- `_disk_from_lists`. The images in use weigh `sizes` less `shared`, so that `max(0, images - in_use)`
-- is `images + shared - sizes`, stopped at 0.
pub disk_from_lists : DfReply → DockerDiskUsage → DockerDiskUsage × Bool
disk_from_lists r u =
    let used_images : List DfImage = filter is_used (or_nil r.images) in
    let sizes : ℕ = sum_of (λ i. or_zero i.size) used_images in
    let shared : ℕ = sum_of (λ i. or_zero i.shared_size) used_images in
    let images : ℕ = or_zero r.layers_size in
    let containers : ℕ = sum_of (λ c. or_zero c.size_rw) (or_nil r.containers) in
    let volumes : ℕ = sum_of (λ v. or_zero v.size) (or_nil r.volumes) in
    let build_cache : ℕ = sum_of (λ b. or_zero b.size) (filter is_own (or_nil r.build_cache)) in
    if has_lists r
    then (
      record u {
        images = images;
        containers = containers;
        volumes = volumes;
        build_cache = build_cache;
        used = images + containers + volumes + build_cache;
        reclaimable =
            ((images + shared) - sizes)
            + sum_of (λ c. or_zero c.size_rw) (filter is_stopped (or_nil r.containers))
            + sum_of (λ v. or_zero v.size) (filter is_unused (or_nil r.volumes))
            + sum_of (λ b. or_zero b.size) (filter is_free (or_nil r.build_cache));
      },
      true,
    )
    else (u, false)

-- What `client.df()` does: raise, with the name that `_disk_failure` gives the failure, answer
-- something that is no dict, or answer.
pub data DfOutcome : Type 0 where
  failed : String → DfOutcome
  not_dict : DfOutcome
  answered : DfReply → DfOutcome

abbrev pub empty_usage : Option String → Option String → DockerDiskUsage
empty_usage node root_dir = record {
  node = node;
  root_dir = root_dir;
  used = 0;
  reclaimable = 0;
  images = 0;
  build_cache = 0;
  volumes = 0;
  containers = 0;
  volumes_unused = 0;
  volumes_total = 0;
  error = none;
}

abbrev pub count_volumes : DfReply → DockerDiskUsage → DockerDiskUsage
count_volumes r u = record u {
  volumes_total = length (or_nil r.volumes);
  volumes_unused = count_of is_unused (or_nil r.volumes);
}

abbrev pub read_disk : DfReply → DockerDiskUsage → DockerDiskUsage
read_disk r u =
    let (aggregated, seen) = disk_from_aggregates r u in
    let (listed, found) = disk_from_lists r aggregated in
    if seen
    then count_volumes r aggregated
    else if found
    then count_volumes r listed
    else record listed { error = some "unreadable" }

-- `_disk_usage`
pub disk_usage : Option String → Option String → DfOutcome → DockerDiskUsage
disk_usage node root_dir (failed code) = record (empty_usage node root_dir) { error = some code }
disk_usage node root_dir not_dict = record (empty_usage node root_dir) { error = some "unreadable" }
disk_usage node root_dir (answered r) = read_disk r (empty_usage node root_dir)
