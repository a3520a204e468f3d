-- ===== src/State/Sessions.antt =====
-- src/state/session_manager.rs: the sessions in memory, over the files of sessions. A file is its text; a
-- session of the map is shared, so that its entry is the session itself. An operation runs under the
-- lock of the map; `locked` says which sessions another task holds when the automatic save comes by.
pub mod Saved
use zier_alpha.Prelude.Dict
use zier_alpha.Prelude.Dict.{Dict}
use zier_alpha.Prelude.{
  ℕ, String, Text, List, [], ◌∷◌, Option, none, some, Bool, true, false, ◌&&◌, not, if◌then◌else◌,
}
use zier_alpha.Agent.Session.{Session, new_with_id}
use zier_alpha.Agent.Session.Format.{Serde}
use zier_alpha.Agent.Session.Files.{load_from_path, save_to_path}

-- The sessions in memory and the files, by the identifiers of the sessions.
pub record GlobalSessionManager : Type 0 where
  pub sessions : Dict Session
  pub files : Dict Text

module _ (d : Serde) (bpe : Option (Text → ℕ)) where
  -- `none` if it is neither in memory nor on disk.
  unfoldable pub get_session :
      ℕ → String → GlobalSessionManager → Option Session × GlobalSessionManager
  get_session now id m = elim (Dict.get id m.sessions) [
    | some s ↦ (some s, m)
    | none ↦ elim (Dict.get id m.files) [
      | none ↦ (none, m)
      | some text ↦
          let s = load_from_path d bpe now id text in
          (some s, record m { sessions = Dict.insert id s m.sessions })
    ]
  ]

  unfoldable pub get_or_create_session :
      ℕ → Text → String → GlobalSessionManager → Session × GlobalSessionManager
  unfolding get_session
  get_or_create_session now cwd id m =
      let (found, m') = get_session now id m in
      let created = new_with_id now cwd id in
      elim found [
        | some s ↦ (s, m')
        | none ↦ (created, record m' { sessions = Dict.insert id created m'.sessions })
      ]

-- How a save ends: the file is written, or it fails before the file is created, or after, with what the
-- file holds then.
pub data Saving : Type 0 where
  complete : Saving
  untouched : Saving
  cut_off : Text → Saving

-- Saved by this round: dirty, and not held by another task.
abbrev pub is_due : (String → Bool) → String → Session → Bool
is_due locked id s = s.dirty && not (locked id)

-- `Session::save` resets `dirty` once the file is written; a failure is only logged.
unfoldable pub save : Saving → Session → Session
save complete s = record s { dirty = false }
save untouched s = s
save (cut_off t) s = s

-- The files after a save.
unfoldable pub save_file : Serde → ℕ → Saving → Session → Dict Text → Dict Text
save_file d now complete s files = Dict.insert s.id (save_to_path d now s) files
save_file d now untouched s files = files
save_file d now (cut_off t) s files = Dict.insert s.id t files

abbrev pub saved_session : (String → Bool) → (String → Saving) → String → Session → Session
saved_session locked saving id s = if is_due locked id s then save (saving id) s else s

-- The files after one session's turn.
abbrev pub saved_file :
    Serde → ℕ → (String → Bool) → (String → Saving) → String → Session → Dict Text → Dict Text
saved_file d now locked saving id s files =
    if is_due locked id s then save_file d now (saving id) s files else files

-- A round of the automatic save.
unfoldable pub auto_save_round :
    Serde
    → ℕ
    → (String → Bool)
    → (String → Saving)
    → Dict Session
    → Dict Text
    → Dict Session × Dict Text
unfolding save save_file
auto_save_round d now locked saving [] files = ([], files)
auto_save_round d now locked saving ((id, s) ∷ sessions) files =
    let (sessions', files') =
      auto_save_round d now locked saving sessions (saved_file d now locked saving id s files) in
    ((id, saved_session locked saving id s) ∷ sessions', files')
