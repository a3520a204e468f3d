-- ===== src/Examples/Stores.antt =====
-- src/agent/session_store.rs, src/agent/skills.rs and src/state/session_manager.rs on small stores.
use zier_alpha.Prelude.Dict
use zier_alpha.Prelude.Dict.{Dict}
use zier_alpha.Prelude.{
  ◌≡◌, ◌⊎◌, refl, String, List, [], ◌∷◌, ◌++◌, any, none, some, Bool, codes, true, false, Option,
  Text, if◌then◌else◌, ◌==◌,
}
use zier_alpha.Agent.Session.{Session}
use zier_alpha.Agent.Session.Format.{Serde}
use zier_alpha.Agent.SessionStore.{SessionEntry, new}
use zier_alpha.Agent.Skills.{Skill, Machine, ready, workspace, no_requirements, find_skill}
use zier_alpha.Agent.Skills.Invocable.{answers, find_skill_lem}
use zier_alpha.State.Sessions.{Saving, cut_off, complete, auto_save_round}
use zier_alpha.State.Sessions.Saved.{SaveTurn, auto_save_round_lem}

abbrev on_disk : Dict SessionEntry
on_disk = ("main", new 1 "s1") ∷ []

abbrev machine : Machine
machine = record {
  from_yaml = λ t. none;
  is_alphanumeric = λ c. true;
  to_lowercase = λ t. t;
  has_binary = λ t. true;
  has_var = λ t. true;
}

abbrev skill : String → Bool → Skill
skill name invocable = record {
  name = codes name;
  command_name = codes name;
  path = codes "/s";
  description = codes "does it";
  emoji = none;
  source = workspace;
  user_invocable = invocable;
  disable_model_invocation = false;
  command_dispatch = none;
  requires = no_requirements;
  eligibility = ready;
}

abbrev skills : List Skill
skills = skill "pr" false ∷ skill "pr" true ∷ []

find_skill_lem_example :
    ((any (answers machine (codes "pr")) skills ≡ false)
      × (find_skill machine (codes "pr") [] skills ≡ none))
    ⊎ ((before : List Skill) × (s : Skill) × (after : List Skill) × (skills ≡ before ++ s ∷ after)
        × (any (answers machine (codes "pr")) before ≡ false)
        × (answers machine (codes "pr") s ≡ true)
        × (find_skill machine (codes "pr") [] skills
            ≡ some (record { skill_name = s.name; args = []; dispatch = s.command_dispatch })))
find_skill_lem_example = find_skill_lem machine (codes "pr") [] skills

abbrev serde : Serde
serde = record {
  usage_to_value = λ u. none;
  usage_from_value = λ v. none;
  to_string = λ v. codes "{}";
  from_str = λ t. none;
  to_rfc3339 = λ n. codes "now";
  parse_from_rfc3339 = λ t. some 3;
}

abbrev session : Session
session = record {
  id = "s1";
  created_at = 3;
  cwd = codes "/work";
  messages = [];
  system_context = none;
  token_count = 0;
  compaction_count = 0;
  memory_flush_compaction_count = 0;
  dirty = true;
}

abbrev sessions : Dict Session
sessions = ("s1", session) ∷ ("s2", record session { id = "s2" }) ∷ []

abbrev locked : String → Bool
locked id = false

-- The save of `s1` fails on the way.
abbrev saving : String → Saving
saving id = if id == "s1" then cut_off (codes "{") else complete

abbrev after : Dict Session × Dict Text
after = auto_save_round serde 4 locked saving sessions []

auto_save_round_lem_example :
    ((◌≡◌ {A = Option Session} (some session) none)
      × (Dict.get "s1" after.0 ≡ none)
      × (Dict.get "s1" after.1 ≡ none))
    ⊎ ((s s' : Session) × (some session ≡ some s)
        × (Dict.get "s1" after.0 ≡ some s')
        × SaveTurn serde 4 false (cut_off (codes "{")) s s' none (Dict.get "s1" after.1))
unfolding Dict.get
auto_save_round_lem_example =
    auto_save_round_lem serde 4 locked saving sessions [] "s1" (refl, (refl, tt))
      ((refl, tt), (tt, tt))
