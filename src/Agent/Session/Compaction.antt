-- ===== src/Agent/Session/Compaction.antt =====
-- src/agent/session.rs: what compaction, truncation and the memory flush do to a session.
use Prim.Native.Nat.{◌^◌}
use zier_alpha.Prelude.{
  ℕ, ◌+◌, ◌-◌, ◌≤◌, ◌<◌, ◌≡◌, refl, sym, Text, List, [], ◌∷◌, ◌++◌, Option, true, false, not, arith,
  length, join, keep, drop, take, min, length-drop, take-append-drop, ltb, lt→ltb, le→ltb,
  Bool-cases, inl, inr, ◌⊎◌, codes,
}
use zier_alpha.Agent.Messages
use zier_alpha.Agent.Messages.{Message, SessionMessage, is_system, plain, system}
use zier_alpha.Agent.Client.{Outcome, done, failed, Failure}
use zier_alpha.Agent.Session.{
  Session, to_summarize, summarized, compact_native, truncate_history, should_memory_flush,
  mark_memory_flushed,
}

-- The message that a summary becomes.
abbrev pub summary_message : ℕ → Text → SessionMessage
summary_message now summary =
    Messages.new now (plain system (codes "Previous conversation summary:" ++ (10 ∷ 10 ∷ summary)))

module _ {ℓ} {W : Type ℓ} (bpe : Option (Text → ℕ)) (summarize : Text → W → Outcome Text × W) where
  -- A compaction of four messages or more whose summary succeeds leaves five: the summary and the
  -- last four, as they were.
  pub compact_native-five :
      (now : ℕ) (s : Session) (w v : W) (t : Text)
      → 4 ≤ length s.messages
      → summarize (to_summarize s) w ≡ (done t, v)
      → (older : List SessionMessage) × (latest : List SessionMessage) × (s.messages
          ≡ older ++ latest)
        × (length latest ≡ 4)
        × (compact_native bpe summarize now s w ≡ (done tt, summarized bpe now t s, v))
        × ((summarized bpe now t s).messages ≡ summary_message now t ∷ latest)
  unfolding compact_native summarized
  compact_native-five now s w v t enough answer =
      let n = length s.messages - 4 in
      (
        take n s.messages,
        drop n s.messages,
        sym (take-append-drop n s.messages),
        omega (arith, length-drop n s.messages),
        rw (le→ltb (length s.messages) 4 enough) (ground arith),
        refl,
      )

  -- A session of four messages does not shrink: the summary of an empty text is put before them.
  pub compact_native-four :
      (now : ℕ) (s : Session) (t : Text)
      → length s.messages ≡ 4
      → (to_summarize s ≡ [])
        × ((summarized bpe now t s).messages ≡ summary_message now t ∷ s.messages)
  unfolding to_summarize summarized join
  compact_native-four now s t four = rw four (refl, refl)

  -- A compaction leaves the session as it was if there are fewer than four messages, or if the
  -- summary fails.
  pub compact_native-unchanged :
      (now : ℕ) (s : Session) (w : W)
      → ((length s.messages < 4) ⊎ ((e : Failure) × ((summarize (to_summarize s) w).0 ≡ failed e)))
      → (compact_native bpe summarize now s w).1 ≡ s
  unfolding compact_native
  compact_native-unchanged now s w (inl few) = rw (lt→ltb (length s.messages) 4 few)
  compact_native-unchanged now s w (inr (e, h)) = ground arith

-- Truncation keeps every system message, in order and first, then the last `n` other messages, or
-- all of them if there are fewer.
pub truncate_history_lem :
    (n : ℕ) (s : Session)
    → let others = keep (λ m. not (is_system m.message.role)) s.messages in
      (older : List SessionMessage) × (latest : List SessionMessage) × (others ≡ older ++ latest)
      × (length latest ≡ min n (length others))
      × ((truncate_history n s).messages
          ≡ keep (λ m. is_system m.message.role) s.messages ++ latest)
unfolding truncate_history
truncate_history_lem n s =
    let others = keep (λ m. not (is_system m.message.role)) s.messages in
    let k = length others - n in
    elim (Bool-cases (ltb n (length others))) [
      | inl more ↦ (
        take k others,
        drop k others,
        sym (take-append-drop k others),
        ground (arith, length-drop k others),
        rw more,
      )
      | inr fits ↦ ([], others, refl, ground arith, rw fits)
    ]

-- After a memory flush no other is due until the next compaction, and then one is; as long as the
-- counter of compactions has not wrapped.
pub memory_flush_once :
    (bpe : Option (Text → ℕ)) (now : ℕ) (t : Text) (s : Session)
    → s.compaction_count + 1 < 2 ^ 32
    → (should_memory_flush (mark_memory_flushed s) ≡ false)
      × (should_memory_flush (summarized bpe now t (mark_memory_flushed s)) ≡ true)
unfolding should_memory_flush mark_memory_flushed summarized
memory_flush_once bpe now t s h = (ground arith, ground arith)
