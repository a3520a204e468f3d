-- ===== src/Agent/DiskMonitor/Logs.antt =====
-- src/agent/disk_monitor.rs: the log files that are left.
use mathlib.Core.List.{Perm}
use mathlib.Core.List.Perm
use zier_alpha.Prelude.{
  ℕ, ◌+◌, ◌-◌, ◌*◌, ◌≤◌, ◌<◌, ◌≡◌, refl, sym, ap, ◌∙◌, List, [], ◌∷◌, ◌++◌, true, false, ◌&&◌,
  arith, ltb, leb, sum_of, All, length, Bool-cases, inl, inr, subst,
}
use zier_alpha.Agent.DiskMonitor.{
  FileEntry, insert_by_age, oldest_first, delete_logs, one_deleted, cleanup_logs,
}

abbrev pub size_of : List FileEntry → ℕ
size_of = sum_of (λ f. f.size)

abbrev pub Deletable : List FileEntry → Type 0
Deletable = All (λ f. f.is_deletable ≡ true)

size_of-insert_by_age :
    (f : FileEntry) (files : List FileEntry)
    → size_of (insert_by_age f files) ≡ f.size + size_of files
unfolding insert_by_age
size_of-insert_by_age f [] = refl
size_of-insert_by_age f (g ∷ files) = ground (arith, size_of-insert_by_age f files)

size_of-oldest_first : (files : List FileEntry) → size_of (oldest_first files) ≡ size_of files
unfolding oldest_first
size_of-oldest_first [] = refl
size_of-oldest_first (f ∷ files) =
    size_of-insert_by_age f (oldest_first files) ∙ ap (λ n. f.size + n) (size_of-oldest_first files)

Deletable-insert_by_age :
    (f : FileEntry) (files : List FileEntry)
    → f.is_deletable ≡ true
    → Deletable files
    → Deletable (insert_by_age f files)
unfolding insert_by_age
Deletable-insert_by_age f [] h hs = (h, tt)
Deletable-insert_by_age f (g ∷ files) h (hg, hs) = elim (Bool-cases (leb f.modified g.modified)) [
  | inl first ↦ rw first (h, (hg, hs))
  | inr later ↦ rw later (hg, Deletable-insert_by_age f files h hs)
]

Deletable-oldest_first : (files : List FileEntry) → Deletable files → Deletable (oldest_first files)
unfolding oldest_first
Deletable-oldest_first [] h = tt
Deletable-oldest_first (f ∷ files) (h, hs) =
    Deletable-insert_by_age f (oldest_first files) h (Deletable-oldest_first files hs)

delete_logs-fits :
    (limit total : ℕ) (files : List FileEntry)
    → Deletable files
    → total ≡ size_of files
    → size_of (delete_logs limit total files).left ≤ limit
unfolding delete_logs
delete_logs-fits limit total [] h e = omega arith
delete_logs-fits limit total (f ∷ files) (h, hs) e =
    ground (arith, delete_logs-fits limit (total - f.size) files hs)

delete_logs_one :
    (limit total : ℕ) (f : FileEntry) (files : List FileEntry)
    → leb total limit ≡ false
    → f.is_deletable ≡ true
    → delete_logs limit total (f ∷ files) ≡ one_deleted (delete_logs limit (total - f.size) files)
unfolding delete_logs
delete_logs_one limit total f files over h = ground arith

-- No file too many was deleted: with the last one deleted, the rest would be over the limit.
abbrev pub Needed : ℕ → List FileEntry → List FileEntry → Type 0
Needed limit [] left = Unit
Needed limit (f ∷ []) left = limit < size_of (f ∷ left)
Needed limit (f ∷ g ∷ gone) left = Needed limit (g ∷ gone) left

Needed-cons :
    (limit : ℕ) (f : FileEntry) (gone left : List FileEntry)
    → limit < f.size + size_of (gone ++ left)
    → Needed limit gone left
    → Needed limit (f ∷ gone) left
Needed-cons limit f [] left over h = over
Needed-cons limit f (g ∷ gone) left over h = h

delete_logs-suffix :
    (limit total : ℕ) (files : List FileEntry)
    → Deletable files
    → total ≡ size_of files
    → (gone : List FileEntry) × (files ≡ gone ++ (delete_logs limit total files).left)
      × (length gone ≡ (delete_logs limit total files).deleted)
      × Needed limit gone (delete_logs limit total files).left
unfolding delete_logs
delete_logs-suffix limit total [] h e = ([], refl, refl, tt)
delete_logs-suffix limit total (f ∷ files) (h, hs) e = elim (Bool-cases (leb total limit)) [
  | inl fits ↦ ([], rw fits, rw fits, tt)
  | inr over ↦
      let (gone, split, count, needed) =
        delete_logs-suffix limit (total - f.size) files hs (omega arith) in
      let left = (delete_logs limit (total - f.size) files).left in
      let much : limit < f.size + size_of files = ground arith in
      rw (delete_logs_one limit total f files over h) (
        f ∷ gone,
        ap (◌∷◌ f) split,
        omega arith,
        Needed-cons limit f gone left (subst (λ l. limit < f.size + size_of l) split much) needed,
      )
]

abbrev pub Ordered : List FileEntry → Type 0
Ordered [] = Unit
Ordered (f ∷ files) = All (λ g. f.modified ≤ g.modified) files × Ordered files

All-insert_by_age :
    (t : ℕ) (f : FileEntry) (files : List FileEntry)
    → t ≤ f.modified
    → All (λ g. t ≤ g.modified) files
    → All (λ g. t ≤ g.modified) (insert_by_age f files)
unfolding insert_by_age
All-insert_by_age t f [] le h = (le, tt)
All-insert_by_age t f (g ∷ files) le (lg, h) = elim (Bool-cases (leb f.modified g.modified)) [
  | inl first ↦ rw first (le, (lg, h))
  | inr later ↦ rw later (lg, All-insert_by_age t f files le h)
]

All-from :
    (t u : ℕ) (files : List FileEntry)
    → t ≤ u
    → All (λ g. u ≤ g.modified) files
    → All (λ g. t ≤ g.modified) files
All-from t u [] le h = tt
All-from t u (g ∷ files) le (lg, h) = (omega arith, All-from t u files le h)

insert_by_age-Ordered :
    (f : FileEntry) (files : List FileEntry) → Ordered files → Ordered (insert_by_age f files)
unfolding insert_by_age
insert_by_age-Ordered f [] h = (tt, tt)
insert_by_age-Ordered f (g ∷ files) (above, h) = elim (Bool-cases (leb f.modified g.modified)) [
  | inl first ↦
      let le : f.modified ≤ g.modified = ground arith in
      rw first ((le, All-from f.modified g.modified files le above), (above, h))
  | inr later ↦
      let le : g.modified ≤ f.modified = ground arith in
      rw later (All-insert_by_age g.modified f files le above, insert_by_age-Ordered f files h)
]

insert_by_age-Perm :
    (f : FileEntry) (files : List FileEntry) → Perm (f ∷ files) (insert_by_age f files)
unfolding insert_by_age
insert_by_age-Perm f [] = Perm.refl (f ∷ [])
insert_by_age-Perm f (g ∷ files) = elim (Bool-cases (leb f.modified g.modified)) [
  | inl first ↦ rw first (Perm.refl (f ∷ g ∷ files))
  | inr later ↦ rw later (Perm.trans (Perm.swap _ _ _) (Perm.cons g (insert_by_age-Perm f files)))
]

-- The order in which the logs are deleted is from the oldest on.
oldest_first-Ordered : (files : List FileEntry) → Ordered (oldest_first files)
unfolding oldest_first
oldest_first-Ordered [] = tt
oldest_first-Ordered (f ∷ files) =
    insert_by_age-Ordered f (oldest_first files) (oldest_first-Ordered files)

oldest_first-Perm : (files : List FileEntry) → Perm files (oldest_first files)
unfolding oldest_first
oldest_first-Perm [] = Perm.refl []
oldest_first-Perm (f ∷ files) =
    Perm.trans (Perm.cons f (oldest_first-Perm files)) (insert_by_age-Perm f (oldest_first files))

-- Where the logs are over a limit that is set and every log can be deleted, the clean-up deletes the
-- first ones of the logs in an order from the oldest on, as many as it counts. The logs that it leaves
-- fit in the limit, and with the last one deleted they would not: no more are deleted than needed.
pub cleanup_logs_lem :
    (max_mb : ℕ) (log_files : List FileEntry)
    → Deletable log_files
    → 0 < max_mb
    → max_mb * 1024 * 1024 < size_of log_files
    → (gone : List FileEntry) × Perm log_files (gone ++ (cleanup_logs max_mb log_files).left)
      × Ordered (gone ++ (cleanup_logs max_mb log_files).left)
      × (length gone ≡ (cleanup_logs max_mb log_files).deleted)
      × (size_of (cleanup_logs max_mb log_files).left ≤ max_mb * 1024 * 1024)
      × Needed (max_mb * 1024 * 1024) gone (cleanup_logs max_mb log_files).left
unfolding cleanup_logs
cleanup_logs_lem max_mb log_files h some_limit over =
    let limit = max_mb * 1024 * 1024 in
    let deletable = Deletable-oldest_first log_files h in
    let sizes = sym (size_of-oldest_first log_files) in
    let (gone, split, count, needed) =
      delete_logs-suffix limit (size_of log_files) (oldest_first log_files) deletable sizes in
    let due : (ltb 0 max_mb && ltb limit (size_of log_files)) ≡ true = ground arith in
    rw due (
      gone,
      rw (← split) (oldest_first-Perm log_files),
      rw (← split) (oldest_first-Ordered log_files),
      count,
      delete_logs-fits limit (size_of log_files) (oldest_first log_files) deletable sizes,
      needed,
    )
