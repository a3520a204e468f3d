-- ===== src/State/Sessions/Saved.antt =====
-- src/state/session_manager.rs: what the automatic save saves, and what is looked up.
use zier_alpha.Prelude.Dict
use zier_alpha.Prelude.Dict.{Dict, Each, Fresh, Distinct, get-insert, get-Fresh}
use zier_alpha.Prelude.{
  ℕ, ◌≡◌, refl, ap, ◌∙◌, String, Text, [], ◌∷◌, Option, none, some, Bool, ◌==◌, eq_iff, eq_refl,
  Bool-cases, Option-cases, inl, inr, ◌⊎◌, arith, true, false, sym, subst, if◌then◌else◌,
}
use zier_alpha.Agent.Session.{Session}
use zier_alpha.Agent.Session.Format.{Serde}
use zier_alpha.Agent.Session.Files.{save_to_path}
use zier_alpha.State.Sessions.{
  is_due, saved_session, saved_file, auto_save_round, Saving, complete, untouched, cut_off, save,
  save_file,
}

-- Every session stands under its own identifier.
abbrev pub IsKeyed : Dict Session → Type 0
IsKeyed = Each (λ id s. s.id ≡ id)

abbrev pub map_session : (Session → Session) → Option Session → Option Session
map_session f none = none
map_session f (some s) = some (f s)

sessions-auto_save_round :
    (d : Serde) (now : ℕ) (locked : String → Bool) (saving : String → Saving)
    (sessions : Dict Session) (files : Dict Text) (j : String)
    → Dict.get j (auto_save_round d now locked saving sessions files).0
      ≡ map_session (saved_session locked saving j) (Dict.get j sessions)
unfolding auto_save_round Dict.get
sessions-auto_save_round d now locked saving [] files j = refl
sessions-auto_save_round d now locked saving ((id, s) ∷ sessions) files j =
    elim (Bool-cases (id == j)) [
      | inl same ↦ rw ((eq_iff id j).0 same, eq_refl j)
      | inr other ↦ rw other (
          sessions-auto_save_round d now locked saving sessions
            (saved_file d now locked saving id s files) j)
    ]

abbrev pub saved_text : Saving → Text → Option Text → Option Text
saved_text complete text old = some text
saved_text untouched text old = old
saved_text (cut_off t) text old = some t

-- What the file of a session is after the round.
abbrev pub file_after :
    Serde
    → ℕ
    → (String → Bool)
    → (String → Saving)
    → String
    → Option Session
    → Option Text
    → Option Text
file_after d now locked saving id none old = old
file_after d now locked saving id (some s) old =
    if is_due locked id s then saved_text (saving id) (save_to_path d now s) old else old

get-save_file :
    (d : Serde) (now : ℕ) (how : Saving) (j : String) (s : Session) (files : Dict Text)
    → Dict.get j (save_file d now how s files) ≡ (
        if s.id == j
        then saved_text how (save_to_path d now s) (Dict.get j files)
        else Dict.get j files)
unfolding save_file
get-save_file d now complete j s files = get-insert s.id j (save_to_path d now s) files
get-save_file d now untouched j s files = elim (Bool-cases (s.id == j)) [
  | inl same ↦ rw same refl
  | inr other ↦ rw other refl
]
get-save_file d now (cut_off t) j s files = get-insert s.id j t files

get-saved_file :
    (d : Serde) (now : ℕ) (locked : String → Bool) (saving : String → Saving) (id j : String)
    (s : Session) (files : Dict Text)
    → s.id ≡ id
    → Dict.get j (saved_file d now locked saving id s files) ≡ (
        if id == j
        then file_after d now locked saving id (some s) (Dict.get j files)
        else Dict.get j files)
get-saved_file d now locked saving id j s files keyed = elim (Bool-cases (is_due locked id s)) [
  | inl due ↦
      let old = Dict.get j files in
      let text = saved_text (saving id) (save_to_path d now s) old in
      rw due
        (get-save_file d now (saving id) j s files ∙ ap (λ k. if k == j then text else old) keyed)
  | inr early ↦ elim (Bool-cases (id == j)) [
    | inl same ↦ rw (early, same)
    | inr other ↦ rw (early, other)
  ]
]

files-auto_save_round :
    (d : Serde) (now : ℕ) (locked : String → Bool) (saving : String → Saving)
    (sessions : Dict Session) (files : Dict Text) (j : String)
    → IsKeyed sessions
    → Distinct sessions
    → Dict.get j (auto_save_round d now locked saving sessions files).1
      ≡ file_after d now locked saving j (Dict.get j sessions) (Dict.get j files)
unfolding auto_save_round Dict.get
files-auto_save_round d now locked saving [] files j keyed distinct = refl
files-auto_save_round d now locked saving ((id, s) ∷ sessions) files j (keyed, rest)
      (fresh, distinct) =
    files-auto_save_round d now locked saving sessions (saved_file d now locked saving id s files) j
      rest distinct
    ∙ elim (Bool-cases (id == j)) [
      | inl same ↦
          let eq = (eq_iff id j).0 same in
          rw (
            get-saved_file d now locked saving id j s files keyed,
            same,
            ← eq,
            get-Fresh id sessions fresh,
          )
      | inr other ↦ rw (get-saved_file d now locked saving id j s files keyed, other)
    ]

-- What a round does to a session and to the text of its file.
abbrev pub SaveTurn :
    Serde → ℕ → Bool → Saving → Session → Session → Option Text → Option Text → Type 0
SaveTurn d now held how s s' old new =
    (((s.dirty ≡ false) ⊎ (held ≡ true)) × (s' ≡ s) × (new ≡ old))
    ⊎ ((s.dirty ≡ true)
        × (held ≡ false)
        × (((how ≡ complete)
              × (s' ≡ record s { dirty = false })
              × (new ≡ some (save_to_path d now s)))
            ⊎ (((how ≡ untouched) × (s' ≡ s) × (new ≡ old))
                ⊎ ((t : Text) × (how ≡ cut_off t) × (s' ≡ s) × (new ≡ some t)))))

save-SaveTurn :
    (d : Serde) (now : ℕ) (how : Saving) (s : Session) (old : Option Text)
    → s.dirty ≡ true
    → SaveTurn d now false how s (save how s) old (saved_text how (save_to_path d now s) old)
unfolding save
save-SaveTurn d now complete s old dirty = inr (dirty, refl, inl (refl, refl, refl))
save-SaveTurn d now untouched s old dirty = inr (dirty, refl, inr (inl (refl, refl, refl)))
save-SaveTurn d now (cut_off t) s old dirty = inr (dirty, refl, inr (inr (t, refl, refl, refl)))

saved-SaveTurn :
    (d : Serde) (now : ℕ) (locked : String → Bool) (saving : String → Saving) (id : String)
    (s : Session) (old : Option Text)
    → SaveTurn d now
        (locked id)
        (saving id)
        s
        (saved_session locked saving id s)
        old
        (file_after d now locked saving id (some s) old)
saved-SaveTurn d now locked saving id s old = elim (Bool-cases (is_due locked id s)) [
  | inl due ↦ turn true due (now_saved due)
  | inr early ↦ turn false early (inl (passed early, refl, refl))
]
  where
    text : Option Text
    text = saved_text (saving id) (save_to_path d now s) old

    turn :
        (b : Bool)
        → is_due locked id s ≡ b
        → SaveTurn d now
            (locked id)
            (saving id)
            s
            (if b then save (saving id) s else s)
            old
            (if b then text else old)
        → SaveTurn d now
            (locked id)
            (saving id)
            s
            (saved_session locked saving id s)
            old
            (file_after d now locked saving id (some s) old)
    turn b e =
        subst
          (λ x.
            SaveTurn d now (locked id) (saving id) s (if x then save (saving id) s else s) old
              (if x then text else old))
          (sym e)

    passed : is_due locked id s ≡ false → (s.dirty ≡ false) ⊎ (locked id ≡ true)
    passed early = ground arith

    now_saved :
        is_due locked id s ≡ true
        → SaveTurn d now (locked id) (saving id) s (save (saving id) s) old text
    now_saved due =
        let dirty : s.dirty ≡ true = ground arith in
        let free : locked id ≡ false = ground arith in
        subst (λ b. SaveTurn d now b (saving id) s (save (saving id) s) old text) (sym free)
          (save-SaveTurn d now (saving id) s old dirty)

-- Where the sessions stand under their own identifiers, each once, a round of the automatic save leaves
-- a session that is not dirty, or that another task holds, as it is, and its file too. Of any other the
-- whole text is written to its file and it is not dirty any more, or, if the save fails, it stays dirty
-- and its file is as it was or as the failure left it. No other session and no other file changes.
pub auto_save_round_lem :
    (d : Serde) (now : ℕ) (locked : String → Bool) (saving : String → Saving)
    (sessions : Dict Session) (files : Dict Text) (j : String)
    → IsKeyed sessions
    → Distinct sessions
    → ((Dict.get j sessions ≡ none)
        × (Dict.get j (auto_save_round d now locked saving sessions files).0 ≡ none)
        × (Dict.get j (auto_save_round d now locked saving sessions files).1 ≡ Dict.get j files))
      ⊎ ((s s' : Session) × (Dict.get j sessions ≡ some s)
          × (Dict.get j (auto_save_round d now locked saving sessions files).0 ≡ some s')
          × SaveTurn d now
              (locked j)
              (saving j)
              s
              s'
              (Dict.get j files)
              (Dict.get j (auto_save_round d now locked saving sessions files).1))
auto_save_round_lem d now locked saving sessions files j keyed distinct =
    let memory = sessions-auto_save_round d now locked saving sessions files j in
    let disk = files-auto_save_round d now locked saving sessions files j keyed distinct in
    elim (Option-cases (Dict.get j sessions)) [
      | inl nobody ↦ inl (nobody, rw nobody at memory, rw nobody at disk)
      | inr (s, there) ↦ inr (
        s,
        saved_session locked saving j s,
        there,
        rw there at memory,
        subst
            (SaveTurn d now (locked j) (saving j) s (saved_session locked saving j s)
              (Dict.get j files))
            (sym (rw there at disk)) (saved-SaveTurn d now locked saving j s (Dict.get j files)),
      )
    ]
