-- ===== src/Ingress/Handling/Owned.antt =====
-- src/ingress/handler.rs: what an owner's command can make the agent do.
use zier_alpha.Prelude.{
  ℕ, ◌≡◌, inl, inr, refl, sym, String, Text, List, [], ◌∷◌, Option, none, some, Bool, true, false,
  All, starts_with, codes, text_eq, nat_eq, Bool-cases, Option-cases, if◌then◌else◌,
}
use zier_alpha.Agent.LlmError.{ToolCall}
use zier_alpha.Agent.Skills.{trim}
use zier_alpha.Ingress.Types.{owner_command, IngressMessage}
use zier_alpha.Ingress.Approval.{ApprovalDecision, approve, deny}
use zier_alpha.Ingress.Handling.{
  Answer, replied, approval_required, turn_failed, Agent, Act, cleared, chatted, continued, asked,
  approved, refused, sent, wrote, Environment, Setup, telegram, chat_id_of, notify, deliver,
  new_session, clear_session, continue_chat, ask_approval, owner_turn, refresh_tools, first_session,
  on_owner_command,
}
use zier_alpha.Ingress.Handling.Limits.{Confined}

module _ {T : Type 0} (e : Environment T) (Scoped : T → Type 0) (msg : IngressMessage)
    (home : Option ℕ) (from : chat_id_of e msg.source ≡ home) where
  abbrev pub Owned : List (Act T) → Type 0
  Owned acts = All (Confined home Scoped msg owner_command) acts

  notify-Owned : (t : Text) (acts : List (Act T)) → Owned acts → Owned (notify e msg.source t acts)
  unfolding notify
  notify-Owned t acts h = go e.has_client (chat_id_of e msg.source) from
    where
      go :
          (there : Bool) (o : Option ℕ)
          → o ≡ home
          → Owned (if there then elim o [ none ↦ acts | some id ↦ sent id t ∷ acts ] else acts)
      go false o same = h
      go true none same = h
      go true (some id) same = (sym same, h)

  deliver-Owned :
      (t : Text) (acts : List (Act T)) → Owned acts → Owned (deliver e msg.source t acts)
  unfolding deliver
  deliver-Owned t acts h = go (starts_with telegram (codes msg.source))
    where
      go :
          (chat : Bool)
          → Owned (
              if chat
              then notify e msg.source t acts
              else wrote t msg.source (codes "OwnerCommand") ∷ acts)
      go true = notify-Owned t acts h
      go false = (refl, h)

  -- What follows an answer.
  continue_chat-Owned :
      (a : Agent T) (acts : List (Act T)) → Owned acts → Owned (continue_chat e a msg.source acts)
  unfolding continue_chat
  continue_chat-Owned a acts h = go (e.answer (continued a.tools a.context ∷ acts))
    where
      go :
          (r : Answer)
          → Owned (elim r [
            | replied response ↦ deliver e msg.source response (continued a.tools a.context ∷ acts)
            | approval_required _ _ ↦ continued a.tools a.context ∷ acts
            | turn_failed ↦ continued a.tools a.context ∷ acts
          ])
      go (replied response) = deliver-Owned response _ (tt, h)
      go (approval_required x y) = (tt, h)
      go turn_failed = (tt, h)

  after_decision :
      (a : Agent T) (id : ℕ) (tool_name : String) (call : ToolCall) (acts : List (Act T))
      (d : Option ApprovalDecision)
      → Owned (asked id tool_name call ∷ acts)
      → Owned (elim d [
        | none ↦ asked id tool_name call ∷ acts
        | some x ↦ continue_chat e a msg.source (elim x [
          | approve ↦ approved call.id ∷ asked id tool_name call ∷ acts
          | deny ↦ refused call.id ∷ asked id tool_name call ∷ acts
        ])
      ])
  after_decision a id tool_name call acts none h = h
  after_decision a id tool_name call acts (some approve) h = continue_chat-Owned a _ (tt, h)
  after_decision a id tool_name call acts (some deny) h = continue_chat-Owned a _ (tt, h)

  ask_approval-Owned :
      (a : Agent T) (tool_name : String) (call : ToolCall) (acts : List (Act T))
      → Owned acts
      → Owned (ask_approval e a msg.source tool_name call acts)
  unfolding ask_approval
  ask_approval-Owned a tool_name call acts h = go (chat_id_of e msg.source) from
    where
      go :
          (o : Option ℕ)
          → o ≡ home
          → Owned (elim o [
            | none ↦ acts
            | some id ↦ elim (e.decision (asked id tool_name call ∷ acts)) [
              | none ↦ asked id tool_name call ∷ acts
              | some d ↦ continue_chat e a msg.source (elim d [
                | approve ↦ approved call.id ∷ asked id tool_name call ∷ acts
                | deny ↦ refused call.id ∷ asked id tool_name call ∷ acts
              ])
            ]
          ])
      go none same = h
      go (some id) same =
          after_decision a id tool_name call acts (e.decision (asked id tool_name call ∷ acts))
            (sym same, h)

  owner_turn-Owned :
      (a : Agent T) (acts : List (Act T)) → Owned acts → Owned (owner_turn e a msg acts)
  unfolding owner_turn
  owner_turn-Owned a acts h =
      go (e.answer (chatted a.tools a.context msg.payload msg.images ∷ acts))
    where
      go :
          (r : Answer)
          → Owned (elim r [
            | replied response ↦
                deliver e msg.source response
                  (chatted a.tools a.context msg.payload msg.images ∷ acts)
            | approval_required tool_name call ↦
                ask_approval e a msg.source tool_name call
                  (chatted a.tools a.context msg.payload msg.images ∷ acts)
            | turn_failed ↦ chatted a.tools a.context msg.payload msg.images ∷ acts
          ])
      go (replied response) = deliver-Owned response _ (tt, h)
      go (approval_required tool_name call) = ask_approval-Owned a tool_name call _ (tt, h)
      go turn_failed = (tt, h)

  new_session-Owned :
      (a : Agent T) (acts : List (Act T)) → Owned acts → Owned (new_session e a acts).1
  unfolding new_session
  new_session-Owned a acts h = elim (Option-cases (e.build_context a.tools a.status_lines acts)) [
    | inl none_built ↦ rw (new_session, none_built) h
    | inr (context, built) ↦ rw (new_session, built) (tt, h)
  ]

  first_session-Owned : (a : Agent T) → Owned (first_session e a []).1
  unfolding first_session
  first_session-Owned a = elim (Bool-cases (nat_eq a.message_count 0)) [
    | inl new ↦ rw (first_session, new) (new_session-Owned a [] tt)
    | inr old ↦ rw (first_session, old) tt
  ]

  pub on_owner_command-Owned : (c : Setup T) (a : Agent T) → Owned (on_owner_command e c a msg)
  unfolding on_owner_command
  on_owner_command-Owned c a =
      let p = first_session e (refresh_tools e c a) [] in
      let h = first_session-Owned (refresh_tools e c a) in
      elim (Bool-cases (text_eq (trim msg.payload) (codes "!clear"))) [
        | inl clear ↦
            rw (on_owner_command, clear)
              (notify-Owned (codes "Session cleared.") _
                (new_session-Owned (clear_session p.0) (cleared ∷ p.1) (tt, h)))
        | inr chat ↦ rw (on_owner_command, chat) (owner_turn-Owned p.0 p.1 h)
      ]
