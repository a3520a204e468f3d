-- ===== src/Examples/Tools.antt =====
-- src/agent/tools.rs and src/agent/tools/registry.rs on a world of one file.
use zier_alpha.Prelude.Dict
use zier_alpha.Prelude.Dict.{Dict, has}
use zier_alpha.Prelude.Paths.{
  FilePath, root_dir, normal, component_eq, is_absolute, join_path, parent, starts_with_path,
}
use zier_alpha.Prelude.PathText.{path_of}
use zier_alpha.Prelude.{
  ℕ, take, ◌+◌, ◌≡◌, ◌⊎◌, refl, String, Text, List, [], ◌∷◌, ◌++◌, some, Bool, true, false, ◌||◌,
  arith, codes, starts_with, decimal, len_utf8,
}
use zier_alpha.Agent.Json.{Json, object, field, end, string, boolean, index, as_str, as_u64}
use zier_alpha.Agent.ToolPath.{
  PermissionMode, read, write, SandboxPolicy, permitted, check_path_permitted, check_path,
  allowed_roots, under_a_root,
}
use zier_alpha.Agent.Tools.{Machine, overlay, ToolContext, ok, panic, verdict}
use zier_alpha.Agent.Tools.Files.{page, write_file, edit_file}
use zier_alpha.Agent.Tools.Files.Confined.{
  WriteAllowed, WritesTo, Granted, EditDone, write_file-WriteAllowed, edit_file-EditDone,
}
use zier_alpha.Agent.Tools.Files.Pages.{page-append, page-overflow}
use zier_alpha.Agent.Tools.Recall.{grep_memory}
use zier_alpha.Agent.Tools.Recall.Results.{own_hits, daily_hits, grep_memory-hits}
use zier_alpha.Agent.Tools.Registry.{build}
use zier_alpha.Agent.Tools.Registry.Precedence.{or_old, find_last, find_last_entry, get-build}

-- The world is the content of the one file, whatever path is asked for; the arguments of a call are
-- the text that stands for them.
abbrev machine : Json → Machine Text
machine args = record {
  from_json = λ t. some args;
  to_lowercase = λ t. t;
  tilde = λ t. t;
  display = λ p. [];
  canonicalize = λ w p. some p;
  exists = λ w p. true;
  read_to_string = λ w p. some w;
  read_dir = λ w p. [];
  create_dir_all = λ p w. (true, w);
  write = λ p t w. (true, t);
}

abbrev context : ToolContext
context = record {
  workspace = root_dir ∷ normal "w" ∷ [];
  project_dir = root_dir ∷ normal "p" ∷ [];
  strategy = overlay;
  policy = record { allow_read = []; allow_write = [] };
}

abbrev to_write : Json
to_write =
    object (field "path" (string (codes "notes.txt")) (field "content" (string (codes "b")) end))

abbrev to_edit : Json
to_edit = object (
    field "path" (string (codes "notes.txt")) (
      field "old_string" (string (codes "a"))
        (field "new_string" (string (codes "bb")) (field "replace_all" (boolean true) end))))

abbrev to_get : Json
to_get = object (field "path" (string (codes "/etc/passwd")) end)

abbrev page_lines : List Text
page_lines = codes "one" ∷ codes "two" ∷ codes "three" ∷ []

write_file-WriteAllowed_example :
    (¬ Granted (machine to_write) context false [] (codes "a")
      × ((write_file (machine to_write) context false [] (codes "a")).1 ≡ codes "a"))
    ⊎ ((path : FilePath) × (content : Text) × (◌≡◌ {A = Bool} false false)
        × WriteAllowed (machine to_write) context [] (codes "a") path content
        × WritesTo
            (machine to_write)
            context
            path
            content
            (codes "a")
            (write_file (machine to_write) context false [] (codes "a")))
write_file-WriteAllowed_example =
    write_file-WriteAllowed (machine to_write) context false [] (codes "a")

-- The write of the example is granted.
write_granted :
    write_file (machine to_write) context false [] (codes "a")
    ≡ (ok (codes "Successfully wrote 1 bytes to "), codes "b")
unfolding write_file verdict check_path_permitted check_path allowed_roots under_a_root
    starts_with_path component_eq path_of is_absolute join_path parent decimal len_utf8
    zier_alpha.Agent.Json.get_field zier_alpha.Agent.ToolPath.absolute_in starts_with
write_granted = refl

edit_file-EditDone_example :
    (◌≡◌ {A = Bool} false false)
    × EditDone
        (machine to_edit)
        context
        []
        (codes "banana")
        (codes "Replaced 3 occurrence(s) in ")
        (codes "bbbnbbnbb")
unfolding edit_file verdict check_path_permitted check_path allowed_roots under_a_root
    starts_with_path component_eq path_of is_absolute join_path parent decimal
    zier_alpha.Agent.Json.get_field zier_alpha.Agent.ToolPath.absolute_in
edit_file-EditDone_example =
    edit_file-EditDone (machine to_edit) context false [] (codes "banana") (codes "bbbnbbnbb")
      (codes "Replaced 3 occurrence(s) in ") refl

page-append_example :
    (xs ys : List Text) × (page 0 (some 1) page_lines ≡ ok xs)
    × (page (0 + 1) (some 5) page_lines ≡ ok ys)
    × (page 0 (some (1 + 5)) page_lines ≡ ok (xs ++ ys))
page-append_example = page-append 0 1 5 page_lines (omega arith)

page-overflow_example : page 1 (some 18446744073709551615) page_lines ≡ panic
page-overflow_example =
    page-overflow 1 18446744073709551615 page_lines (omega arith) (omega arith) (omega arith)

-- One line of MEMORY.md, and no more although `memory` is there too.
abbrev to_search : Machine Text
to_search = machine to_get

grep_memory-hits_example :
    grep_memory to_search context.workspace (codes "an") 1 (codes "banana")
    ≡ take 1 (
        own_hits to_search (codes "an") context.workspace (codes "banana")
        ++ daily_hits to_search (codes "an") context.workspace (codes "banana"))
grep_memory-hits_example =
    grep_memory-hits to_search (codes "an") 1 context.workspace (codes "banana")

abbrev tool_name : String × ℕ → String
tool_name t = t.0

abbrev builtins : List (String × ℕ)
builtins = ("bash", 1) ∷ ("read_file", 2) ∷ []

get-build_example :
    Dict.get "bash" (build ("read_file" ∷ []) tool_name builtins [] (("bash", 7) ∷ []))
    ≡ or_old (find_last "bash" tool_name (λ t. true) (("bash", 7) ∷ [])) (
        or_old (find_last_entry "bash" []) (
          find_last "bash" tool_name
            (λ t. has "*" ("read_file" ∷ []) || has (tool_name t) ("read_file" ∷ []))
            builtins))
get-build_example = get-build "bash" ("read_file" ∷ []) tool_name builtins (("bash", 7) ∷ []) []
