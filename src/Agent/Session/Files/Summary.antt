-- ===== src/Agent/Session/Files/Summary.antt =====
-- src/agent/session.rs: a system message among the messages, such as the summary of a compaction, in a
-- session that is saved and loaded again.
use zier_alpha.Prelude.{
  ℕ, ◌≡◌, refl, sym, ap, subst, ◌∙◌, String, Text, List, [], ◌∷◌, ◌++◌, Option, none, some, true,
  false, any, All,
}
use zier_alpha.Agent.Messages.{SessionMessage, is_system}
use zier_alpha.Agent.Session.{Session, recalculate_tokens}
use zier_alpha.Agent.Session.Format.{Serde}
use zier_alpha.Agent.Session.Reread.{IsStorable}
use zier_alpha.Agent.Session.Files.{
  take_into, take_message, context_messages, file_entries, save_to_path, load_from_path,
}
use zier_alpha.Agent.Session.Files.RoundTrip.{
  loaded, take_messages, take_messages-no_system, take_messages-context, headed, appended, Prints,
  IsWritable,
}

module _ (d : Serde) where
  take_messages-append :
      (xs ys : List SessionMessage) (s : Session)
      → take_messages d (xs ++ ys) s ≡ take_messages d ys (take_messages d xs s)
  take_messages-append [] ys s = refl
  take_messages-append (x ∷ xs) ys s = take_messages-append xs ys (take_message x s)

  take_into-system :
      (m : SessionMessage) (s : Session)
      → is_system m.message.role ≡ true
      → take_into none m s ≡ record s { system_context = some m.message.content }
  unfolding take_into
  take_into-system m s h = rw (take_into, h)

  take_messages-system :
      (before : List SessionMessage) (m : SessionMessage) (after : List SessionMessage)
      (s : Session)
      → s.system_context ≡ none
      → any (λ x. is_system x.message.role) before ≡ false
      → is_system m.message.role ≡ true
      → take_messages d (before ++ m ∷ after) s ≡ record s {
        system_context = some m.message.content;
        messages = (s.messages ++ before) ++ after;
      }
  unfolding take_message
  take_messages-system before m after s none_yet others is_sys =
      let held = appended d s before in
      let taken : take_message m held ≡ record held { system_context = some m.message.content } =
        ap (λ o. take_into o m held) none_yet ∙ take_into-system m held is_sys in
      take_messages-append before (m ∷ after) s
      ∙ (ap (take_messages d (m ∷ after)) (take_messages-no_system d before s others)
          ∙ (ap (take_messages d after) taken
              ∙ take_messages-context d after _ m.message.content refl))

  -- A session without a context whose messages have a system message, such as the summary of a
  -- compaction, is loaded d with the first such message as its context and no longer among its
  -- messages; the conditions are those of the round trip.
  pub load_from_path-summary :
      (bpe : Option (Text → ℕ)) (now later : ℕ) (id : String) (s : Session)
      (before : List SessionMessage) (m : SessionMessage) (after : List SessionMessage)
      → IsWritable d s
      → s.system_context ≡ none
      → s.messages ≡ before ++ m ∷ after
      → any (λ x. is_system x.message.role) before ≡ false
      → is_system m.message.role ≡ true
      → All (IsStorable d) s.messages
      → All (Prints d) (file_entries d now s)
      → load_from_path d bpe later id (save_to_path d now s)
        ≡ recalculate_tokens bpe (record s {
          id = id;
          dirty = false;
          system_context = some m.message.content;
          messages = before ++ after;
        })
  unfolding recalculate_tokens
  load_from_path-summary bpe now later id s before m after w none_yet parts others is_sys storable
        prints =
      let no_context : context_messages d now s.system_context ++ s.messages ≡ s.messages =
        ap (λ o. context_messages d now o ++ s.messages) none_yet in
      loaded d bpe now later id s w (subst (All (IsStorable d)) (sym no_context) storable) prints
      ∙ ap (λ ms. recalculate_tokens bpe (take_messages d ms (headed d s id))) (no_context ∙ parts)
      ∙ ap (recalculate_tokens bpe)
          (take_messages-system before m after (headed d s id) refl others is_sys)
