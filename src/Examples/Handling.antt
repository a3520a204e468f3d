-- ===== src/Examples/Handling.antt =====
-- src/ingress/handler.rs on a message of each trust level.
use zier_alpha.Prelude.{
  ℕ, ◌≡◌, refl, String, Text, List, [], ◌∷◌, Option, none, some, Bool, true, false, codes, All,
  starts_with, text_eq, if◌then◌else◌,
}
use zier_alpha.Agent.LlmError.{ToolCall}
use zier_alpha.Ingress.Types.{TrustLevel, owner_command, untrusted_event, IngressMessage}
use zier_alpha.Ingress.Approval.{approve}
use zier_alpha.Ingress.Handling.{
  Answer, replied, approval_required, Act, began, chatted, continued, asked, approved, sent,
  Environment, Setup, chat_id_of, job_name, process_ingress_message,
}
use zier_alpha.Ingress.Handling.Limits.{Confined, IsScoped}
use zier_alpha.Ingress.Handling.Confined.{process_ingress_message-Confined}
use zier_alpha.Ingress.Handling.Rightful.{Rightful, process_ingress_message-Rightful}
use zier_alpha.Ingress.Handling.Prompts.{process_ingress_message-prompts}

abbrev call : ToolCall
call = record { id = "c1"; name = "bash"; arguments = codes "{}" }

-- The model asks for an approval once, gets it, and answers.
abbrev answers : List (Act String) → Answer
answers (continued x y ∷ acts) = replied (codes "done")
answers _ = approval_required "bash" call

abbrev environment : Environment String
environment = record {
  get_or_create_session = λ s. some (none, 0);
  status_lines = none;
  script_tools = none;
  build_tools = λ s. some ("bash" ∷ s);
  build_context = λ tools status acts. some (codes "default");
  answer = answers;
  decision = λ acts. some approve;
  parse_chat_id = λ t. some 7;
  has_client = true;
  tool_name = codes;
}

abbrev setup : Setup String
setup = record { prototype_tools = []; base_tools = "bash" ∷ []; script_tools = []; jobs = [] }

abbrev prompts : Text → Option Text
prompts r = some (codes "Be careful.")

abbrev message : String → TrustLevel → IngressMessage
message source trust = record {
  id = 1;
  source = source;
  payload = codes "hello";
  trust = trust;
  timestamp = 5;
  images = [];
}

process_ingress_message-Confined_example :
    All
      (Confined
        (chat_id_of environment "web")
        (IsScoped environment.tool_name setup.jobs (job_name "web"))
        (message "web" untrusted_event)
        untrusted_event)
      (process_ingress_message environment prompts setup (message "web" untrusted_event))
process_ingress_message-Confined_example =
    process_ingress_message-Confined environment setup prompts (message "web" untrusted_event)

process_ingress_message-Rightful_example :
    Rightful environment
      (process_ingress_message environment prompts setup (message "telegram:7" owner_command))
process_ingress_message-Rightful_example =
    process_ingress_message-Rightful environment prompts setup (message "telegram:7" owner_command)

-- The command of the owner in the chat 7 is approved, goes on and is answered there.
owner_approved :
    process_ingress_message environment prompts setup (message "telegram:7" owner_command)
    ≡ sent 7 (codes "done")
      ∷ continued ("bash" ∷ []) (some (codes "default"))
      ∷ approved "c1"
      ∷ asked 7 "bash" call
      ∷ chatted ("bash" ∷ []) (some (codes "default")) (codes "hello") []
      ∷ began
      ∷ []
unfolding process_ingress_message starts_with text_eq zier_alpha.Agent.Skills.trim_matches
    zier_alpha.Prelude.is_whitespace
owner_approved = refl

process_ingress_message-prompts_example :
    process_ingress_message environment prompts setup (message "web" untrusted_event)
    ≡ process_ingress_message environment (λ r. some []) setup (message "web" untrusted_event)
unfolding starts_with
process_ingress_message-prompts_example =
    process_ingress_message-prompts environment setup (message "web" untrusted_event)
      (λ tools status acts. (codes "default", refl)) refl prompts (λ r. some []) (λ r. refl)
