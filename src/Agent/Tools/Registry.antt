-- ===== src/Agent/Tools/Registry.antt =====
-- src/agent/tools/registry.rs: the tools that an agent has, by name. A tool is anything that has a name;
-- the map is an association list, and the order of its values means nothing.
pub mod Precedence
use zier_alpha.Prelude.Dict
use zier_alpha.Prelude.Dict.{Dict, has}
use zier_alpha.Prelude.{String, List, [], ◌∷◌, Bool, ◌||◌, if◌then◌else◌}

module _ {ℓ} {T : Type ℓ} where
  -- The loop over the built-in tools.
  unfoldable pub insert_allowed : List String → (T → String) → List T → Dict T → Dict T
  insert_allowed allowed name [] tools = tools
  insert_allowed allowed name (t ∷ builtins) tools =
      insert_allowed allowed name builtins
        (if has "*" allowed || has (name t) allowed then Dict.insert (name t) t tools else tools)

  -- The loop over the external tools, each under the name of its setting.
  unfoldable pub insert_external : Dict T → Dict T → Dict T
  insert_external [] tools = tools
  insert_external ((name, t) ∷ external) tools = insert_external external (Dict.insert name t tools)

  -- The loop over the script tools.
  unfoldable pub insert_scripts : (T → String) → List T → Dict T → Dict T
  insert_scripts name [] tools = tools
  insert_scripts name (t ∷ scripts) tools =
      insert_scripts name scripts (Dict.insert (name t) t tools)

  -- `ToolRegistry::build`, by name.
  unfoldable pub build : List String → (T → String) → List T → Dict T → List T → Dict T
  unfolding insert_allowed insert_external insert_scripts
  build allowed name builtins external scripts =
      insert_scripts name scripts
        (insert_external external (insert_allowed allowed name builtins []))
