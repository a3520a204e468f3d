-- ===== src/Agent/Tools/Files/Confined.antt =====
-- src/agent/tools.rs: what `write_file` and `edit_file` may change.
use zier_alpha.Prelude.Paths.{FilePath, parent}
use zier_alpha.Prelude.Replace.{
  matches, replace, replace_first, interleave, Unmatched, Replaced, replace_first_lem,
  Replaced-replace,
}
use zier_alpha.Prelude.{
  ℕ, ◌≡◌, ◌≢◌, ◌⊎◌, refl, ap, ◌∙◌, sym, inl, inr, Text, [], ◌++◌, Bool, true, false, contains, some,
  codes, decimal, byte_len, arith, Bool-cases, Option-cases, none, ◌∷◌, ◌+◌, length,
}
use zier_alpha.Agent.Json.{Json, index}
use zier_alpha.Agent.ToolPath.{PermissionMode, read, write, Verdict, permitted, denied, panicked}
use zier_alpha.Agent.Tools.{
  Machine, ToolContext, access_denied, io_error, Ended, ok, err, panic, >>=-eq-ok, verdict,
  old_string_not_found, permit, parse_arguments, read_text, required, as_bool, or_default,
  resolve_path,
}
use zier_alpha.Agent.Tools.Files.{
  write_request, write_text, write_below, write_file, written, edited, edit_content, edit_request,
  edit_file, replaced,
}

-- The second text has the new one before each character of the first, and at its end.
abbrev pub Spread : Text → Text → Text → Type 0
Spread new [] after = after ≡ new
Spread new (c ∷ before) after = (rest : Text) × (after ≡ new ++ c ∷ rest) × Spread new before rest

-- What an edit makes of a content: one occurrence is replaced, the first, or all of them, as many as
-- are counted. The empty text occurs before each character and at the end.
abbrev pub Edits : Bool → Text → Text → ℕ → Text → Text → Type 0
Edits true [] new count before after = (count ≡ length before + 1) × Spread new before after
Edits true (c ∷ old) new count before after = Replaced (c ∷ old) new count before after
Edits false old new count before after =
    (count ≡ 1)
    × ((p s : Text) × Unmatched old p (old ++ s)
        × (before ≡ p ++ (old ++ s))
        × (after ≡ p ++ (new ++ s)))

interleave-Spread : (new before : Text) → Spread new before (replace [] new before)
unfolding replace interleave
interleave-Spread new [] = refl
interleave-Spread new (c ∷ before) = (interleave new before, refl, interleave-Spread new before)

module _ {W : Type 0} (m : Machine W) (c : ToolContext) where
  permit-ok :
      (mode : PermissionMode) (path : FilePath) (w : W)
      → permit m c mode path w ≡ ok tt
      → verdict m c mode path w ≡ permitted
  unfolding permit
  permit-ok mode path w h = go (verdict m c mode path w) h
    where
      go :
          (v : Verdict)
          → elim v as (λ _. Ended (Unit {0})) [
            | permitted ↦ ok tt
            | denied ↦ err (access_denied path)
            | panicked ↦ panic
          ]
            ≡ ok tt
          → v ≡ permitted
      go permitted e = refl
      go denied e = absurd (cc)
      go panicked e = absurd (cc)

  edited-Edits :
      (replace_all : Bool) (old new before after : Text) (count : ℕ)
      → edited m c replace_all old new before ≡ ok (after, count)
      → Edits replace_all old new count before after
  unfolding edited
  edited-Edits true [] new before after count h =
      let same : after ≡ replace [] new before = cc in
      let many : count ≡ matches [] before = cc in
      rw (same, many) (omega arith, interleave-Spread new before)
  edited-Edits true (c ∷ old) new before after count h =
      let same : after ≡ replace (c ∷ old) new before = cc in
      let many : count ≡ matches (c ∷ old) before = cc in
      rw (same, many) (Replaced-replace (c ∷ old) new before (λ e. cc))
  edited-Edits false old new before after count h = elim (Bool-cases (contains old before)) [
    | inl there ↦
        let (p, s, quiet, whole, done) = replace_first_lem old new before there in
        let answer : ◌≡◌ {A = Ended (Text × ℕ)} (ok (replace_first old new before, 1))
            (ok (after, count)) =
          rw there at h in
        let one : count ≡ 1 = cc in
        let same : after ≡ replace_first old new before = cc in
        (one, (p, s, quiet, whole, same ∙ done))
    | inr absent ↦
        let answer : ◌≡◌ {A = Ended (Text × ℕ)} (err old_string_not_found) (ok (after, count)) =
          rw absent at h in
        absurd (cc)
  ]

  -- The arguments of a `write_file` call that goes ahead.
  abbrev pub WriteAllowed : Text → W → FilePath → Text → Type 0
  WriteAllowed arguments w path content =
      (args : Json) × (raw : Text) × (parse_arguments m arguments ≡ ok args)
      × (required "path" args ≡ ok raw)
      × (required "content" args ≡ ok content)
      × (path ≡ resolve_path m raw c.workspace c.project_dir c.strategy)
      × (verdict m c write path w ≡ permitted)

  write_request-WriteAllowed :
      (arguments : Text) (w : W) (path : FilePath) (content : Text)
      → write_request m c false arguments w ≡ ok (path, content)
      → WriteAllowed arguments w path content
  unfolding write_request
  write_request-WriteAllowed arguments w path content h =
      let (args, parsed, h1) = >>=-eq-ok (parse_arguments m arguments) _ h in
      let (raw, has_path, h2) = >>=-eq-ok (required "path" args) _ h1 in
      let (body, has_content, h3) = >>=-eq-ok (required "content" args) _ h2 in
      let (_, may, h4) =
        >>=-eq-ok (permit m c write (resolve_path m raw c.workspace c.project_dir c.strategy) w) _
          h3 in
      let there : resolve_path m raw c.workspace c.project_dir c.strategy ≡ path = cc h4 in
      let that : body ≡ content = cc h4 in
      (
        args,
        raw,
        parsed,
        has_path,
        rw (← that) has_content,
        sym there,
        rw (← there) (permit-ok write _ w may),
      )

  write_request-degraded :
      (degraded : Bool) (arguments : Text) (w : W) {r : FilePath × Text}
      → write_request m c degraded arguments w ≡ ok r
      → degraded ≡ false
  unfolding write_request
  write_request-degraded true arguments w h = absurd (cc)
  write_request-degraded false arguments w h = refl

  -- What writing a file and the directory above it leads to: the directory is made first, if there is
  -- one above, and a failure of that ends the call; then the content is written to the path.
  abbrev pub WritesTo : FilePath → Text → W → Ended Text × W → Type 0
  WritesTo path content w result =
      ((dir : FilePath) × (parent path ≡ some dir)
        × (w' : W) × (m.create_dir_all dir w ≡ (false, w'))
        × (result ≡ (err io_error, w')))
      ⊎ ((made : W) × (((parent path ≡ none) × (made ≡ w))
            ⊎ ((dir : FilePath) × (parent path ≡ some dir)
                × (m.create_dir_all dir w ≡ (true, made))))
          × ((w' : W) × (((m.write path content made ≡ (false, w')) × (result ≡ (err io_error, w')))
                ⊎ ((m.write path content made ≡ (true, w'))
                    × (result ≡ (
                      ok (
                          codes "Successfully wrote "
                          ++ (decimal (byte_len content)
                              ++ (codes " bytes to " ++ m.display path))),
                      w',
                    ))))))

  write_text-put :
      (path : FilePath) (content answer : Text) (w : W)
      → (w' : W) × (((m.write path content w ≡ (false, w'))
            × (write_text m c path content answer w ≡ (err io_error, w')))
          ⊎ ((m.write path content w ≡ (true, w'))
              × (write_text m c path content answer w ≡ (ok answer, w'))))
  unfolding write_text
  write_text-put path content answer w = elim (Bool-cases (m.write path content w).0) [
    | inl done ↦ (
      (m.write path content w).1,
      inr (ap (λ b. (b, (m.write path content w).1)) done, rw (write_text, done) refl),
    )
    | inr failed ↦ (
      (m.write path content w).1,
      inl (ap (λ b. (b, (m.write path content w).1)) failed, rw (write_text, failed) refl),
    )
  ]

  write_below-WritesTo :
      (path : FilePath) (content : Text) (w : W)
      → WritesTo path content w (write_below m c path content (written m c path content) w)
  unfolding write_below
  write_below-WritesTo path content w = elim (Option-cases (parent path)) [
    | inl top ↦
        rw (write_below, top)
          (inr (w, inl (refl, refl), write_text-put path content (written m c path content) w))
    | inr (dir, above) ↦ elim (Bool-cases (m.create_dir_all dir w).0) [
      | inl made ↦ inr (
        (m.create_dir_all dir w).1,
        inr (dir, above, ap (λ b. (b, (m.create_dir_all dir w).1)) made),
        rw (write_below, above, made)
            (write_text-put path content (written m c path content) (m.create_dir_all dir w).1),
      )
      | inr failed ↦ inl (
        dir,
        above,
        (m.create_dir_all dir w).1,
        ap (λ b. (b, (m.create_dir_all dir w).1)) failed,
        rw (write_below, above, failed) refl,
      )
    ]
  ]

  -- The policy grants what the arguments ask for, and the disk is not full.
  abbrev pub Granted : Bool → Text → W → Type 0
  Granted degraded arguments w =
      (path : FilePath) × (content : Text) × (degraded ≡ false)
      × WriteAllowed arguments w path content

  permit-permitted :
      (mode : PermissionMode) (path : FilePath) (w : W)
      → verdict m c mode path w ≡ permitted
      → permit m c mode path w ≡ ok tt
  unfolding permit
  permit-permitted mode path w h = rw (h, permit)

  write_request-Granted :
      (degraded : Bool) (arguments : Text) (w : W)
      → Granted degraded arguments w
      → (r : FilePath × Text) × (write_request m c degraded arguments w ≡ ok r)
  unfolding write_request
  write_request-Granted degraded arguments w
        (path, content, free, (args, raw, parsed, has_path, has_content, there, may)) =
      (
        (path, content),
        rw (free, parsed, has_path, has_content, ← there, permit-permitted write path w may) refl,
      )

  -- A `write_file` call whose arguments, disk and policy do not grant a write leaves the world as it is.
  -- Any other makes the directory above the path that its arguments name, if there is one above, and,
  -- unless that fails, writes their content to that path; its answer is an error exactly if one of the
  -- two fails.
  pub write_file-WriteAllowed :
      (degraded : Bool) (arguments : Text) (w : W)
      → (¬ Granted degraded arguments w × ((write_file m c degraded arguments w).1 ≡ w))
        ⊎ ((path : FilePath) × (content : Text) × (degraded ≡ false)
            × WriteAllowed arguments w path content
            × WritesTo path content w (write_file m c degraded arguments w))
  unfolding write_file
  write_file-WriteAllowed degraded arguments w = go (write_request m c degraded arguments w) refl
    where
      refused :
          (r : Ended (FilePath × Text))
          → write_request m c degraded arguments w ≡ r
          → ((x : FilePath × Text) → r ≢ ok x)
          → ¬ Granted degraded arguments w
      refused r h not_ok granted =
          let (x, asked) = write_request-Granted degraded arguments w granted in
          not_ok x (sym h ∙ asked)

      go :
          (r : Ended (FilePath × Text))
          → write_request m c degraded arguments w ≡ r
          → (¬ Granted degraded arguments w × ((write_file m c degraded arguments w).1 ≡ w))
            ⊎ ((path : FilePath) × (content : Text) × (degraded ≡ false)
                × WriteAllowed arguments w path content
                × WritesTo path content w (write_file m c degraded arguments w))
      go (err e) h = inl (refused (err e) h (λ x same. cc), rw (h, write_file))
      go panic h = inl (refused panic h (λ x same. cc), rw (h, write_file))
      go (ok (path, content)) h =
          let free = write_request-degraded degraded arguments w h in
          let asked : write_request m c false arguments w ≡ ok (path, content) = rw free at h in
          inr (
            path,
            content,
            free,
            write_request-WriteAllowed arguments w path content asked,
            rw (h, write_file) (write_below-WritesTo path content w),
          )

  -- What an `edit_file` call that answers did to the file at a path.
  abbrev pub EditedAt : FilePath → Bool → Text → Text → W → Text → W → Type 0
  EditedAt path replace_all old new w answer w' =
      (before after : Text) × (count : ℕ) × (verdict m c read path w ≡ permitted)
      × (verdict m c write path w ≡ permitted)
      × (m.read_to_string w path ≡ some before)
      × Edits replace_all old new count before after
      × (m.write path after w ≡ (true, w'))
      × (answer
          ≡ codes "Replaced " ++ (decimal count ++ (codes " occurrence(s) in " ++ m.display path)))

  -- The same, for the arguments of the call.
  abbrev pub EditDone : Text → W → Text → W → Type 0
  EditDone arguments w answer w' =
      (args : Json) × (raw old new : Text) × (parse_arguments m arguments ≡ ok args)
      × (required "path" args ≡ ok raw)
      × (required "old_string" args ≡ ok old)
      × (required "new_string" args ≡ ok new)
      × EditedAt (resolve_path m raw c.workspace c.project_dir c.strategy)
          (or_default false (as_bool (index "replace_all" args))) old new w answer w'

  read_text-ok :
      (path : FilePath) (w : W) (t : Text)
      → read_text m path w ≡ ok t
      → m.read_to_string w path ≡ some t
  unfolding read_text
  read_text-ok path w t h = ground arith

  write_text-ok :
      (path : FilePath) (content answer answer' : Text) (w w' : W)
      → write_text m c path content answer w ≡ (ok answer', w')
      → (m.write path content w ≡ (true, w')) × (answer' ≡ answer)
  unfolding write_text
  write_text-ok path content answer answer' w w' h = ground arith

  -- The request that was granted, with the file's content before.
  edit_content-ok :
      (path path' : FilePath) (replace_all : Bool) (old new after : Text) (count : ℕ) (w : W)
      → edit_content m c path replace_all old new w ≡ ok (path', after, count)
      → (before : Text) × (path' ≡ path)
        × (verdict m c read path w ≡ permitted)
        × (verdict m c write path w ≡ permitted)
        × (m.read_to_string w path ≡ some before)
        × Edits replace_all old new count before after
  unfolding edit_content
  edit_content-ok path path' replace_all old new after count w h =
      let (_, may_read, h1) = >>=-eq-ok (permit m c read path w) _ h in
      let (_, may_write, h2) = >>=-eq-ok (permit m c write path w) _ h1 in
      let (before, was, h3) = >>=-eq-ok (read_text m path w) _ h2 in
      let (r, made, h4) = >>=-eq-ok (edited m c replace_all old new before) _ h3 in
      let there : path ≡ path' = cc h4 in
      let same : r ≡ (after, count) = cc h4 in
      (
        before,
        sym there,
        permit-ok read path w may_read,
        permit-ok write path w may_write,
        read_text-ok path w before was,
        edited-Edits replace_all old new before after count (made ∙ ap ok same),
      )

  edited_at :
      (path path' : FilePath) (replace_all : Bool) (old new after : Text) (count : ℕ)
      (answer : Text) (w w' : W)
      → edit_content m c path replace_all old new w ≡ ok (path', after, count)
      → write_text m c path' after (replaced m c path' count) w ≡ (ok answer, w')
      → EditedAt path replace_all old new w answer w'
  edited_at path path' replace_all old new after count answer w w' h done =
      let (before, same, may_read, may_write, was, what) =
        edit_content-ok path path' replace_all old new after count w h in
      let (put, said) = write_text-ok path' after (replaced m c path' count) answer w w' done in
      (before, after, count, may_read, may_write, was, what, rw same at put, rw same at said)

  edit_request-ok :
      (arguments : Text) (w w' : W) (path : FilePath) (after : Text) (count : ℕ) (answer : Text)
      → edit_request m c false arguments w ≡ ok (path, after, count)
      → write_text m c path after (replaced m c path count) w ≡ (ok answer, w')
      → EditDone arguments w answer w'
  unfolding edit_request
  edit_request-ok arguments w w' path after count answer h done =
      let (args, parsed, h1) = >>=-eq-ok (parse_arguments m arguments) _ h in
      let (raw, has_path, h2) = >>=-eq-ok (required "path" args) _ h1 in
      let (old, has_old, h3) = >>=-eq-ok (required "old_string" args) _ h2 in
      let (new, has_new, h4) = >>=-eq-ok (required "new_string" args) _ h3 in
      (
        args,
        raw,
        old,
        new,
        parsed,
        has_path,
        has_old,
        has_new,
        edited_at _ path _ old new after count answer w w' h4 done,
      )

  -- An `edit_file` call that answers found the disk not full, and the path of its arguments permitted to
  -- be read and to be written; it replaced the first occurrence of `old_string` in the content of the
  -- file, or with `replace_all` all of them, as many as its answer says, and wrote the result back. An
  -- empty `old_string` occurs before each character and at the end.
  pub edit_file-EditDone :
      (degraded : Bool) (arguments : Text) (w w' : W) (answer : Text)
      → edit_file m c degraded arguments w ≡ (ok answer, w')
      → (degraded ≡ false) × EditDone arguments w answer w'
  unfolding edit_file
  edit_file-EditDone true arguments w w' answer h = absurd (refused h)
    where
      refused : edit_file m c true arguments w ≡ (ok answer, w') → ⊥
      refused e = ground arith
  edit_file-EditDone false arguments w w' answer h =
      (refl, go (edit_request m c false arguments w) refl)
    where
      go :
          (r : Ended (FilePath × Text × ℕ))
          → edit_request m c false arguments w ≡ r
          → EditDone arguments w answer w'
      go (ok (path, after, count)) e =
          edit_request-ok arguments w w' path after count answer e (rw (e, edit_file) at h)
      go (err x) e = ground arith
      go panic e = ground arith
