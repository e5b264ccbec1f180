-- ===== src/Docker/Disk/Tests.antt =====
-- docker.py: an itemised answer, and the theorems at it.
use terminal_status_panel.Base.{◌≡◌, refl, true, false, none, some, [], ◌∷◌}
use terminal_status_panel.Docker.Disk.{
  DfReply, answered, disk_from_aggregates, disk_from_lists, disk_usage,
}

abbrev itemised : DfReply
itemised = record {
  image_usage = none;
  container_usage = none;
  volume_usage = none;
  build_cache_usage = none;
  layers_size = some 1000;
  images = some (
      record { size = some 700; shared_size = some 100; containers = 2 }
      ∷ record { size = some 400; shared_size = some 100; containers = 0 }
      ∷ []);
  containers = some (
      record { size_rw = some 30; state = some "running" }
      ∷ record { size_rw = some 7; state = some "exited" }
      ∷ []);
  volumes = some (
      record { size = some 50; ref_count = some 0 }
      ∷ record { size = some 60; ref_count = none }
      ∷ []);
  build_cache = some (
      record { size = some 5; shared = false; in_use = false }
      ∷ record { size = some 9; shared = true; in_use = false }
      ∷ []);
}

itemised_lem : disk_usage (some "alpha") none (answered itemised) ≡ record {
  node = some "alpha";
  root_dir = none;
  used = 1152;
  reclaimable = 462;
  images = 1000;
  build_cache = 5;
  volumes = 110;
  containers = 37;
  volumes_unused = 1;
  volumes_total = 2;
  error = none;
}
unfolding disk_usage disk_from_aggregates disk_from_lists
itemised_lem = refl
