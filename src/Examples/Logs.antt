-- ===== src/Examples/Logs.antt =====
-- src/agent/disk_monitor.rs on two logs of more than a megabyte together.
use mathlib.Core.List.{Perm}
use zier_alpha.Prelude.{ℕ, ◌≡◌, ◌≤◌, ◌*◌, refl, String, List, [], ◌∷◌, ◌++◌, true, arith, length}
use zier_alpha.Agent.DiskMonitor.{FileEntry, cleanup_logs}
use zier_alpha.Agent.DiskMonitor.Logs.{size_of, Ordered, Needed, cleanup_logs_lem}

abbrev log : String → ℕ → ℕ → FileEntry
log path size modified = record {
  path = path;
  has_extension = true;
  size = size;
  modified = modified;
  is_deletable = true;
}

abbrev logs : List FileEntry
logs = log "new.log" 1000000 20 ∷ log "old.log" 500000 10 ∷ []

cleanup_logs_lem_example :
    (gone : List FileEntry) × Perm logs (gone ++ (cleanup_logs 1 logs).left)
    × Ordered (gone ++ (cleanup_logs 1 logs).left)
    × (length gone ≡ (cleanup_logs 1 logs).deleted)
    × (size_of (cleanup_logs 1 logs).left ≤ 1 * 1024 * 1024)
    × Needed (1 * 1024 * 1024) gone (cleanup_logs 1 logs).left
cleanup_logs_lem_example = cleanup_logs_lem 1 logs (refl, (refl, tt)) (omega arith) (omega arith)
