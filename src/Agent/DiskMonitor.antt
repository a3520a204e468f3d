-- ===== src/Agent/DiskMonitor.antt =====
-- src/agent/disk_monitor.rs: the files that a clean-up of the disk deletes.
-- A file of a directory is what the file system tells of it, and whether it can be deleted. Times
-- are numbers of seconds; the sums of sizes stay far below the bound of `u64`, which is not
-- modelled.
pub mod Logs
use zier_alpha.Prelude.{
  ℕ, ◌+◌, ◌-◌, ◌*◌, String, List, [], ◌∷◌, Bool, true, false, ◌&&◌, ltb, leb, sum_of, if◌then◌else◌,
}

pub record FileEntry : Type 0 where
  pub path : String
  pub has_extension : Bool
  pub size : ℕ
  pub modified : ℕ
  pub is_deletable : Bool

-- A clean-up leaves some files and counts those that it deleted.
pub record Cleaned : Type 0 where
  pub left : List FileEntry
  pub deleted : ℕ

abbrev left_alone : FileEntry → Cleaned → Cleaned
left_alone f c = record { left = f ∷ c.left; deleted = c.deleted }

abbrev pub one_deleted : Cleaned → Cleaned
one_deleted c = record { left = c.left; deleted = c.deleted + 1 }

-- `retention_days as u64 * 24 * 60 * 60`
abbrev pub retention : ℕ → ℕ
retention retention_days = retention_days * 24 * 60 * 60

-- The test of `cleanup_directory`; a file from the future has no age.
unfoldable pub is_old : ℕ → ℕ → FileEntry → Bool
is_old now retention_days f =
    f.has_extension && leb f.modified now && ltb (retention retention_days) (now - f.modified)

unfoldable pub cleanup_directory : ℕ → ℕ → List FileEntry → Cleaned
cleanup_directory now retention_days [] = record { left = []; deleted = 0 }
cleanup_directory now retention_days (f ∷ files) =
    let rest = cleanup_directory now retention_days files in
    if is_old now retention_days f && f.is_deletable then one_deleted rest else left_alone f rest

-- `sort_by_key` of the time of modification, which is stable.
unfoldable pub insert_by_age : FileEntry → List FileEntry → List FileEntry
insert_by_age f [] = f ∷ []
insert_by_age f (g ∷ files) =
    if leb f.modified g.modified then f ∷ g ∷ files else g ∷ insert_by_age f files

unfoldable pub oldest_first : List FileEntry → List FileEntry
unfolding insert_by_age
oldest_first [] = []
oldest_first (f ∷ files) = insert_by_age f (oldest_first files)

-- The loop over the log files; `total_size` is what is left of the sizes.
unfoldable pub delete_logs : ℕ → ℕ → List FileEntry → Cleaned
delete_logs limit total_size [] = record { left = []; deleted = 0 }
delete_logs limit total_size (f ∷ files) =
    let without = delete_logs limit (total_size - f.size) files in
    let with_it = delete_logs limit total_size files in
    if leb total_size limit
    then record { left = f ∷ files; deleted = 0 }
    else if f.is_deletable
    then one_deleted without
    else left_alone f with_it

-- The files are the logs of the directory.
unfoldable pub cleanup_logs : ℕ → List FileEntry → Cleaned
cleanup_logs max_mb log_files =
    let limit = max_mb * 1024 * 1024 in
    let total_size = sum_of (λ f. f.size) log_files in
    if ltb 0 max_mb && ltb limit total_size
    then delete_logs limit total_size (oldest_first log_files)
    else record { left = log_files; deleted = 0 }
