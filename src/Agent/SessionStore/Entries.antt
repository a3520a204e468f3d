-- ===== src/Agent/SessionStore/Entries.antt =====
-- src/agent/session_store.rs: what an update of the store changes.
use zier_alpha.Prelude.Dict
use zier_alpha.Prelude.Dict.{Dict, get-insert}
use zier_alpha.Prelude.{
  ℕ, ◌≡◌, refl, sym, ap, ◌∙◌, String, Option, none, some, false, ◌==◌, eq_iff, arith, Bool-cases,
  Option-cases, inl, inr, if◌then◌else◌, [], ◌>>=◌,
}
use zier_alpha.Agent.SessionStore.{
  SessionEntry, new, filled, get_cli_session_id, set_cli_session_id, get_or_create, update,
  load_and_update, cli_session_of,
}

get_cli-set_cli :
    (now : ℕ) (p q id : String) (e : SessionEntry)
    → get_cli_session_id q (set_cli_session_id now p id e)
      ≡ (if p == q then filled (some id) else get_cli_session_id q e)
unfolding get_cli_session_id set_cli_session_id
get_cli-set_cli now p q id e = ground (
  arith,
  get-insert p q id e.cli_session_ids,
  eq_iff p q,
  eq_iff p "claude-cli",
  eq_iff q "claude-cli",
)

-- The entries that an update starts from: those of the file, if there is one.
abbrev pub base : Option (Option (Dict SessionEntry)) → Dict SessionEntry → Dict SessionEntry
base none entries = entries
base (some none) entries = []
base (some (some on_disk)) entries = on_disk

others-get_or_create :
    (now : ℕ) (k j id : String) (entries : Dict SessionEntry)
    → (k == j) ≡ false
    → Dict.get j (get_or_create now k id entries).1 ≡ Dict.get j entries
unfolding get_or_create
others-get_or_create now k j id entries other = elim (Option-cases (Dict.get k entries)) [
  | inl missing ↦ rw (get_or_create, missing, get-insert k j (new now id) entries, other)
  | inr (e, there) ↦ rw (get_or_create, there)
]

-- The entry that an update changes, before the change.
abbrev pub entry_before : ℕ → String → String → Dict SessionEntry → SessionEntry
entry_before now k id entries = (get_or_create now k id entries).0

get-update :
    (now : ℕ) (k j id : String) (f : SessionEntry → SessionEntry) (entries : Dict SessionEntry)
    → Dict.get j (update now k id f entries) ≡ (
        if k == j
        then some (record (f (entry_before now k id entries)) { updated_at = now })
        else Dict.get j entries)
unfolding update
get-update now k j id f entries =
    let held = (get_or_create now k id entries).1 in
    let v : SessionEntry = record (f (entry_before now k id entries)) { updated_at = now } in
    get-insert k j v held ∙ elim (Bool-cases (k == j)) [
      | inl same ↦ rw same
      | inr other ↦ rw other (others-get_or_create now k j id entries other)
    ]

load_and_update-base :
    (disk : Option (Option (Dict SessionEntry))) (now : ℕ) (k id : String)
    (f : SessionEntry → SessionEntry) (entries : Dict SessionEntry)
    → load_and_update disk now k id f entries ≡ update now k id f (base disk entries)
unfolding load_and_update
load_and_update-base none now k id f entries = refl
load_and_update-base (some none) now k id f entries = refl
load_and_update-base (some (some on_disk)) now k id f entries = refl

entry_before-some :
    (now : ℕ) (k id : String) (e : SessionEntry) (entries : Dict SessionEntry)
    → Dict.get k entries ≡ some e
    → entry_before now k id entries ≡ e
unfolding get_or_create
entry_before-some now k id e entries h = rw (entry_before, get_or_create, h)

entry_before-none :
    (now : ℕ) (k id : String) (entries : Dict SessionEntry)
    → Dict.get k entries ≡ none
    → entry_before now k id entries ≡ new now id
unfolding get_or_create
entry_before-none now k id entries h = rw (entry_before, get_or_create, h)

new-cli : (now : ℕ) (id q : String) → get_cli_session_id q (new now id) ≡ none
unfolding get_cli_session_id new Dict.get
new-cli now id q = ground arith

-- What one session has for a provider before an update: that of its entry, or nothing.
cli_before :
    (now : ℕ) (k q id : String) (entries : Dict SessionEntry)
    → get_cli_session_id q (entry_before now k id entries) ≡ cli_session_of k q entries
unfolding cli_session_of
cli_before now k q id entries = elim (Option-cases (Dict.get k entries)) [
  | inl missing ↦
      ap (get_cli_session_id q) (entry_before-none now k id entries missing)
      ∙ (new-cli now id q ∙ sym (ap (λ o. o >>= get_cli_session_id q) missing))
  | inr (e, there) ↦
      ap (get_cli_session_id q) (entry_before-some now k id e entries there)
      ∙ sym (ap (λ o. o >>= get_cli_session_id q) there)
]

set-cli :
    (now later : ℕ) (key id provider q cli : String) (b : Dict SessionEntry)
    → get_cli_session_id q
        (record (set_cli_session_id later provider cli (entry_before now key id b)) {
          updated_at = now;
        })
      ≡ (if provider == q then filled (some cli) else cli_session_of key q b)
unfolding get_cli_session_id
set-cli now later key id provider q cli b =
    get_cli-set_cli later provider q cli (entry_before now key id b)
    ∙ ap (λ o. if provider == q then filled (some cli) else o) (cli_before now key q id b)

-- After a session of the command line is set in the store, the store has it for that session and
-- provider, if it is not empty; every other session and provider has what the file had, or the store
-- itself where there is no file, and nothing where the file does not parse.
pub cli_session_of-load_and_update :
    (disk : Option (Option (Dict SessionEntry))) (now later : ℕ) (key j id provider q cli : String)
    (entries : Dict SessionEntry)
    → cli_session_of j q
        (load_and_update disk now key id (set_cli_session_id later provider cli) entries)
      ≡ (if key == j
          then (if provider == q
              then filled (some cli)
              else cli_session_of key q (base disk entries))
          else cli_session_of j q (base disk entries))
unfolding cli_session_of
cli_session_of-load_and_update disk now later key j id provider q cli entries =
    let b = base disk entries in
    let f = set_cli_session_id later provider cli in
    ap (λ m. Dict.get j m >>= get_cli_session_id q) (load_and_update-base disk now key id f entries)
    ∙ (ap (λ o. o >>= get_cli_session_id q) (get-update now key j id f b)
        ∙ elim (Bool-cases (key == j)) [
          | inl same ↦ rw same (set-cli now later key id provider q cli b)
          | inr other ↦ rw other
        ])
