-- ===== src/Lib.antt =====
-- A verification library of terminal_status_panel, the status panel of a terminal login: collectors
-- read the state of the host, of Docker and of the clusters on it, under a budget of time; renderers
-- turn what they found into panels; follow mode draws the panels again and again; and
-- `status-collect` keeps, with the rights it needs, the part of the state that a login may not read.
-- Collectors hand records of `model` to the renderers, and never talk to one another otherwise.
--
-- Base: names of the libraries passed on, lists, texts, dicts and the stable sort.
-- Model: src/terminal_status_panel/model. Records have the source's fields; a property is a function.
-- Budget: src/terminal_status_panel/budget.py, `run_with_budget` and `_join_stragglers`.
-- Docker: src/terminal_status_panel/collectors/docker.py and _labels.py. Docker.Nodes is `_node_map`,
--   Docker.Tasks `_service_tasks` and `_last_run`, Docker.Trouble `_failed_history` and
--   `_service_trouble`, Docker.Containers the local containers and `_container_groups`,
--   Docker.Memory and Docker.Disk what these hold, Docker.Services the rows, and Docker.Collect
--   `collect_docker`.
-- Clusters: src/terminal_status_panel/collectors/clusters.py: `locate_member`, `exec_text` and
--   `kind_for_service`; Clusters.Postgres, Clusters.Mongo and Clusters.Kafka parse what the commands
--   print, Clusters.Hosts holds GlusterFS and RustFS, and Clusters.Probes goes from the index of
--   containers to the verdict.
-- Config: src/terminal_status_panel/config.py, the accessors of `_Reader`.
-- Collector: src/terminal_status_panel/collector; Collector.Journal is journal.py, Collector.Vrrp is
--   vrrp.py, Collector.Apt is apt.py, and Collector.Run is run.py, one run over its sources.
-- Follow: src/terminal_status_panel/follow.py, the status row, the cropping and the loop.
-- HostState: src/terminal_status_panel/collectors/hoststate.py, `host_trouble`, the rows of the host's
--   events that `status-collect` counted.
-- StateFile: src/terminal_status_panel/model/host.py and `read_host_state`, the file between
--   `status-collect` and the panel.
-- Traefik: src/terminal_status_panel/collectors/traefik_parse.py: entrypoints, labels and the API's
--   answer.
-- Install: src/terminal_status_panel/install.py: the managed block of a login shell's profile, and in
--   Install.Collector the files and units of `status-collect`.
-- Render: src/terminal_status_panel/render; Render.Packing is packing.py, and Render.Verdict is
--   verdict.py with the glyphs of icons.py.
--
-- A time is a number: milliseconds in Follow, microseconds elsewhere. The clock is read once in a
-- collector, where the source reads it at each comparison. Text whose length matters is a list of
-- code points, other text a string. An absent key, a null and an exception of a call are `none`.
-- Sizes and exit codes are not negative. Parameters stand for what is not in the repository: the
-- Docker API, journalctl, systemctl, gluster, the clock, JSON and XML documents, `str.lower` and
-- `int(s, 16)`, rich's widths and heights, Python's float format, and which integers `repr` prints.
--
-- Every loop of the source is a recursion on the list that it walks over. Fuel is used for the digits
-- of a number alone: one more than the number, and a number has fewer digits than that.
-- The endless loop of follow mode is a function of the passes that it makes until it is interrupted.
--
-- Not modelled: the other collectors, the other renderers, the sections of the configuration and the
-- command line. What the modelled code reads of them are arguments. The locks of the index of
-- containers and the timeouts of curl, which are floats, are not modelled either.
pub mod Base
pub mod Model
pub mod Budget
pub mod Clusters
pub mod Config
pub mod Collector
pub mod Docker
pub mod Follow
pub mod HostState
pub mod Install
pub mod Render
pub mod StateFile
pub mod Traefik
