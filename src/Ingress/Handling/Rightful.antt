-- ===== src/Ingress/Handling/Rightful.antt =====
-- src/ingress/handler.rs: when a tool call is approved.
use zier_alpha.Prelude.{
  ℕ, ◌≡◌, refl, sym, subst, All, String, Text, List, [], ◌∷◌, Option, none, some, Bool, true, false,
  starts_with, codes, text_eq, nat_eq, Bool-cases, Option-cases, inl, inr, if◌then◌else◌,
}
use zier_alpha.Agent.LlmError.{ToolCall}
use zier_alpha.Agent.Skills.{trim}
use zier_alpha.Ingress.Types.{
  TrustLevel, owner_command, trusted_event, untrusted_event, IngressMessage,
}
use zier_alpha.Ingress.Approval.{ApprovalDecision, approve, deny}
use zier_alpha.Ingress.Handling.{
  Answer, replied, approval_required, turn_failed, Agent, Act, began, cleared, chatted, continued,
  asked, approved, refused, sent, wrote, ran_script, Environment, Setup, chat_id_of, notify,
  deliver, new_session, clear_session, continue_chat, ask_approval, owner_turn, refresh_tools,
  first_session, on_owner_command, process_ingress_message, dispatch, agent_for, telegram,
}
use zier_alpha.Ingress.Handling.Limits.{Confined}
use zier_alpha.Ingress.Handling.Confined.{Scoped, dispatch-Confined}

module _ {T : Type 0} (e : Environment T) where
  -- The call was asked for just before, and the decision on that was to approve it; and it was asked for
  -- because the model's answer to what was done before needed this approval.
  abbrev pub IsDecided : String → List (Act T) → Type 0
  IsDecided call_id acts =
      (id : ℕ) × (tool_name : String) × (call : ToolCall) × (older : List (Act T)) × (acts
        ≡ asked id tool_name call ∷ older)
      × (call.id ≡ call_id)
      × (e.decision acts ≡ some approve)
      × (e.answer older ≡ approval_required tool_name call)

  abbrev pub Rightful : List (Act T) → Type 0
  Rightful [] = Unit
  Rightful (approved call_id ∷ acts) = IsDecided call_id acts × Rightful acts
  Rightful (began ∷ acts) = Rightful acts
  Rightful (cleared ∷ acts) = Rightful acts
  Rightful (chatted tools context t images ∷ acts) = Rightful acts
  Rightful (continued tools context ∷ acts) = Rightful acts
  Rightful (asked id tool_name call ∷ acts) = Rightful acts
  Rightful (refused call_id ∷ acts) = Rightful acts
  Rightful (sent id t ∷ acts) = Rightful acts
  Rightful (wrote t source label ∷ acts) = Rightful acts
  Rightful (ran_script s ∷ acts) = Rightful acts

  module _ (source : String) where
    notify-Rightful :
        (t : Text) (acts : List (Act T)) → Rightful acts → Rightful (notify e source t acts)
    unfolding notify
    notify-Rightful t acts h = go e.has_client (chat_id_of e source)
      where
        go :
            (there : Bool) (o : Option ℕ)
            → Rightful (if there then elim o [ none ↦ acts | some id ↦ sent id t ∷ acts ] else acts)
        go false o = h
        go true none = h
        go true (some id) = h

    deliver-Rightful :
        (t : Text) (acts : List (Act T)) → Rightful acts → Rightful (deliver e source t acts)
    unfolding deliver
    deliver-Rightful t acts h = go (starts_with telegram (codes source))
      where
        go :
            (chat : Bool)
            → Rightful (
                if chat
                then notify e source t acts
                else wrote t source (codes "OwnerCommand") ∷ acts)
        go true = notify-Rightful t acts h
        go false = h

    continue_chat-Rightful :
        (a : Agent T) (acts : List (Act T))
        → Rightful acts
        → Rightful (continue_chat e a source acts)
    unfolding continue_chat
    continue_chat-Rightful a acts h = go (e.answer (continued a.tools a.context ∷ acts))
      where
        go :
            (r : Answer)
            → Rightful (elim r [
              | replied response ↦ deliver e source response (continued a.tools a.context ∷ acts)
              | approval_required _ _ ↦ continued a.tools a.context ∷ acts
              | turn_failed ↦ continued a.tools a.context ∷ acts
            ])
        go (replied response) = deliver-Rightful response _ h
        go (approval_required x y) = h
        go turn_failed = h

    ask_approval-Rightful :
        (a : Agent T) (tool_name : String) (call : ToolCall) (acts : List (Act T))
        → e.answer acts ≡ approval_required tool_name call
        → Rightful acts
        → Rightful (ask_approval e a source tool_name call acts)
    unfolding ask_approval
    ask_approval-Rightful a tool_name call acts needed h = whole (chat_id_of e source)
      where
        after :
            (id : ℕ) (d : Option ApprovalDecision)
            → e.decision (asked id tool_name call ∷ acts) ≡ d
            → Rightful (elim d [
              | none ↦ asked id tool_name call ∷ acts
              | some x ↦ continue_chat e a source (elim x [
                | approve ↦ approved call.id ∷ asked id tool_name call ∷ acts
                | deny ↦ refused call.id ∷ asked id tool_name call ∷ acts
              ])
            ])
        after id none decided = h
        after id (some approve) decided =
            continue_chat-Rightful a _ ((id, tool_name, call, acts, refl, refl, decided, needed), h)
        after id (some deny) decided = continue_chat-Rightful a _ h

        whole :
            (o : Option ℕ)
            → Rightful (elim o [
              | none ↦ acts
              | some id ↦ elim (e.decision (asked id tool_name call ∷ acts)) [
                | none ↦ asked id tool_name call ∷ acts
                | some d ↦ continue_chat e a source (elim d [
                  | approve ↦ approved call.id ∷ asked id tool_name call ∷ acts
                  | deny ↦ refused call.id ∷ asked id tool_name call ∷ acts
                ])
              ]
            ])
        whole none = h
        whole (some id) = after id (e.decision (asked id tool_name call ∷ acts)) refl

  owner_turn-Rightful :
      (a : Agent T) (msg : IngressMessage) (acts : List (Act T))
      → Rightful acts
      → Rightful (owner_turn e a msg acts)
  unfolding owner_turn
  owner_turn-Rightful a msg acts h =
      go (e.answer (chatted a.tools a.context msg.payload msg.images ∷ acts)) refl
    where
      go :
          (r : Answer)
          → e.answer (chatted a.tools a.context msg.payload msg.images ∷ acts) ≡ r
          → Rightful (elim r [
            | replied response ↦
                deliver e msg.source response
                  (chatted a.tools a.context msg.payload msg.images ∷ acts)
            | approval_required tool_name call ↦
                ask_approval e a msg.source tool_name call
                  (chatted a.tools a.context msg.payload msg.images ∷ acts)
            | turn_failed ↦ chatted a.tools a.context msg.payload msg.images ∷ acts
          ])
      go (replied response) was = deliver-Rightful msg.source response _ h
      go (approval_required tool_name call) was =
          ask_approval-Rightful msg.source a tool_name call _ was h
      go turn_failed was = h

  new_session-Rightful :
      (a : Agent T) (acts : List (Act T)) → Rightful acts → Rightful (new_session e a acts).1
  unfolding new_session
  new_session-Rightful a acts h = go (e.build_context a.tools a.status_lines acts)
    where
      go :
          (o : Option Text)
          → Rightful
              (elim o as (λ _. Agent T × List (Act T)) [
                | none ↦ (a, acts)
                | some context ↦
                    (record a { context = some context; message_count = 0 }, began ∷ acts)
              ]).1
      go none = h
      go (some context) = h

  first_session-Rightful : (a : Agent T) → Rightful (first_session e a []).1
  unfolding first_session
  first_session-Rightful a = elim (Bool-cases (nat_eq a.message_count 0)) [
    | inl new ↦ rw (first_session, new) (new_session-Rightful a [] tt)
    | inr old ↦ rw (first_session, old) tt
  ]

  on_owner_command-Rightful :
      (c : Setup T) (a : Agent T) (msg : IngressMessage) → Rightful (on_owner_command e c a msg)
  unfolding on_owner_command
  on_owner_command-Rightful c a msg =
      let p = first_session e (refresh_tools e c a) [] in
      let h = first_session-Rightful (refresh_tools e c a) in
      elim (Bool-cases (text_eq (trim msg.payload) (codes "!clear"))) [
        | inl clear ↦
            rw (on_owner_command, clear)
              (notify-Rightful msg.source (codes "Session cleared.") _
                (new_session-Rightful (clear_session p.0) (cleared ∷ p.1) h))
        | inr chat ↦ rw (on_owner_command, chat) (owner_turn-Rightful p.0 msg p.1 h)
      ]

  -- Where no act is an approval there is nothing to show.
  trusted-Rightful :
      (home : Option ℕ) (Scoped : T → Type 0) (msg : IngressMessage) (acts : List (Act T))
      → All (Confined home Scoped msg trusted_event) acts
      → Rightful acts
  trusted-Rightful home Scoped msg [] h = tt
  trusted-Rightful home Scoped msg (approved id ∷ acts) (bad, h) = absurd bad
  trusted-Rightful home Scoped msg (act ∷ acts) (_, h) = trusted-Rightful home Scoped msg acts h

  untrusted-trusted :
      (home : Option ℕ) (Scoped : T → Type 0) (msg : IngressMessage) (act : Act T)
      → Confined home Scoped msg untrusted_event act
      → Confined home Scoped msg trusted_event act
  untrusted-trusted home Scoped msg began h = tt
  untrusted-trusted home Scoped msg (chatted x y z i) h = subst (All Scoped) (sym h) tt
  untrusted-trusted home Scoped msg (wrote x y z) h = h
  untrusted-trusted home Scoped msg _ h = absurd h

  All-map :
      (P Q : Act T → Type 0)
      → ((act : Act T) → P act → Q act)
      → (acts : List (Act T)) → All P acts
      → All Q acts
  All-map P Q f [] h = tt
  All-map P Q f (act ∷ acts) (now, later) = (f act now, All-map P Q f acts later)

  dispatch-Rightful :
      (prompts : Text → Option Text) (c : Setup T) (trust : TrustLevel) (a : Agent T)
      (msg : IngressMessage)
      → All
          (Confined (chat_id_of e msg.source) (Scoped e c msg (chat_id_of e msg.source)) msg trust)
          (dispatch e prompts c trust a msg)
      → Rightful (dispatch e prompts c trust a msg)
  unfolding dispatch
  dispatch-Rightful prompts c owner_command a msg h = on_owner_command-Rightful c a msg
  dispatch-Rightful prompts c trusted_event a msg h =
      trusted-Rightful (chat_id_of e msg.source) _ msg _ h
  dispatch-Rightful prompts c untrusted_event a msg h =
      trusted-Rightful (chat_id_of e msg.source) _ msg _ (
        All-map _ _
          (untrusted-trusted (chat_id_of e msg.source) (Scoped e c msg (chat_id_of e msg.source))
            msg)
          _ h)

  -- A tool call is approved only after the model's answer needed its approval, it was asked for just
  -- before, and the decision was to approve.
  pub process_ingress_message-Rightful :
      (prompts : Text → Option Text) (c : Setup T) (msg : IngressMessage)
      → Rightful (process_ingress_message e prompts c msg)
  unfolding process_ingress_message
  process_ingress_message-Rightful prompts c msg =
      elim (Option-cases (e.get_or_create_session msg.source)) [
        | inl nothing ↦ rw (process_ingress_message, nothing) tt
        | inr ((context, n), found) ↦
            let a = agent_for e c context n in
            rw (process_ingress_message, found)
              (dispatch-Rightful prompts c msg.trust a msg
                (dispatch-Confined e c msg (chat_id_of e msg.source) prompts msg.trust a refl))
      ]
