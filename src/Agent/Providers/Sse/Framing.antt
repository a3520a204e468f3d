-- ===== src/Agent/Providers/Sse/Framing.antt =====
-- src/agent/providers.rs: how the bytes of a stream are cut into chunks does not matter.
use zier_alpha.Memory.Chunks.{lines}
use zier_alpha.Prelude.{
  ℕ, zero, suc, ◌≤◌, ◌<◌, ◌≡◌, refl, sym, ap, ◌∙◌, Text, List, [], ◌∷◌, ◌++◌, append_assoc,
  append-nil, map, none, some, true, false, length, drop, arith, starts_with, Bool-cases,
  Option-cases, inl, inr,
}
use zier_alpha.Agent.Client.{Outcome}
use zier_alpha.Agent.Providers.{StreamChunk}
use zier_alpha.Agent.Providers.Sse.{
  bytes, blank_line, split_event, take_events, drain_buffer, read_sse_lines, read_events,
  read_chunks,
}

split_event-here :
    (c : ℕ) (t : Text)
    → starts_with blank_line (c ∷ t) ≡ true
    → split_event (c ∷ t) ≡ some ([], drop 1 t)
unfolding split_event
split_event-here c t h = rw (split_event, h)

split_event-later :
    (c : ℕ) (t e r : Text)
    → starts_with blank_line (c ∷ t) ≡ false
    → split_event t ≡ some (e, r)
    → split_event (c ∷ t) ≡ some (c ∷ e, r)
unfolding split_event
split_event-later c t e r h k = rw (split_event, h, k)

split_event-none :
    (c : ℕ) (t : Text)
    → starts_with blank_line (c ∷ t) ≡ false
    → split_event t ≡ none
    → split_event (c ∷ t) ≡ none
unfolding split_event
split_event-none c t h k = rw (split_event, h, k)

-- The first blank line of a text is the first one of a longer text.
split_event-append :
    (a b e r : Text) → split_event a ≡ some (e, r) → split_event (a ++ b) ≡ some (e, r ++ b)
unfolding split_event starts_with
split_event-append [] b e r h = absurd (cc)
split_event-append (c ∷ []) b e r h = absurd (ground arith)
split_event-append (c ∷ d ∷ t) b e r h = elim (Bool-cases (starts_with blank_line (c ∷ d ∷ t))) [
  | inl blank ↦
      let found = sym (split_event-here c (d ∷ t) blank) ∙ h in
      let on = split_event-here c (d ∷ (t ++ b)) blank in
      let first : [] ≡ e = ground arith in
      let last : t ≡ r = ground arith in rw (← first, ← last) on
  | inr other ↦ elim (Option-cases (split_event (d ∷ t))) [
    | inl nothing ↦ absurd (cc (h, split_event-none c (d ∷ t) other nothing))
    | inr ((e', r'), found) ↦
        let on =
          split_event-later c (d ∷ (t ++ b)) e' (r' ++ b) other
            (split_event-append (d ∷ t) b e' r' found) in
        let same = sym (split_event-later c (d ∷ t) e' r' other found) ∙ h in
        let first : c ∷ e' ≡ e = ground arith in
        let last : r' ≡ r = ground arith in rw (← first, ← last) on
  ]
]

length-split_event : (a e r : Text) → split_event a ≡ some (e, r) → length r < length a
unfolding split_event starts_with
length-split_event [] e r h = absurd (cc)
length-split_event (c ∷ []) e r h = absurd (ground arith)
length-split_event (c ∷ d ∷ t) e r h = elim (Bool-cases (starts_with blank_line (c ∷ d ∷ t))) [
  | inl blank ↦
      let found = sym (split_event-here c (d ∷ t) blank) ∙ h in
      let last : t ≡ r = ground arith in rw (← last) (omega arith)
  | inr other ↦ elim (Option-cases (split_event (d ∷ t))) [
    | inl nothing ↦ absurd (cc (h, split_event-none c (d ∷ t) other nothing))
    | inr ((e', r'), found) ↦
        let same = sym (split_event-later c (d ∷ t) e' r' other found) ∙ h in
        let last : r' ≡ r = ground arith in
        let shorter = length-split_event (d ∷ t) e' r' found in rw (← last) (omega (arith, shorter))
  ]
]

take_events-some :
    (n : ℕ) (a e r : Text)
    → split_event a ≡ some (e, r)
    → take_events (suc n) a ≡ (e ∷ (take_events n r).0, (take_events n r).1)
unfolding take_events
take_events-some n a e r h = rw (take_events, h)

take_events-none : (n : ℕ) (a : Text) → split_event a ≡ none → take_events n a ≡ ([], a)
unfolding take_events
take_events-none zero a h = refl
take_events-none (suc n) a h = rw (take_events, h)

-- Enough fuel is enough: any more gives the same.
take_events-fuel :
    (n m : ℕ) (a : Text) → length a ≤ n → length a ≤ m → take_events n a ≡ take_events m a
take_events-fuel zero zero a h k = refl
take_events-fuel zero (suc m) a h k = elim (Option-cases (split_event a)) [
  | inl nothing ↦ take_events-none zero a nothing ∙ sym (take_events-none (suc m) a nothing)
  | inr ((e, r), found) ↦ absurd (omega (arith, length-split_event a e r found))
]
take_events-fuel (suc n) zero a h k = elim (Option-cases (split_event a)) [
  | inl nothing ↦ take_events-none (suc n) a nothing ∙ sym (take_events-none zero a nothing)
  | inr ((e, r), found) ↦ absurd (omega (arith, length-split_event a e r found))
]
take_events-fuel (suc n) (suc m) a h k = elim (Option-cases (split_event a)) [
  | inl nothing ↦ take_events-none (suc n) a nothing ∙ sym (take_events-none (suc m) a nothing)
  | inr ((e, r), found) ↦
      let shorter = length-split_event a e r found in
      let rest = take_events-fuel n m r (omega (arith, shorter, h)) (omega (arith, shorter, k)) in
      take_events-some n a e r found
      ∙ (ap (λ p. (e ∷ p.0, p.1)) rest ∙ sym (take_events-some m a e r found))
]

-- What is left has no blank line.
take_events-left : (n : ℕ) (a : Text) → length a ≤ n → split_event (take_events n a).1 ≡ none
unfolding take_events
take_events-left zero a h = elim (Option-cases (split_event a)) [
  | inl nothing ↦ nothing
  | inr ((e, r), found) ↦ absurd (omega (arith, length-split_event a e r found))
]
take_events-left (suc n) a h = elim (Option-cases (split_event a)) [
  | inl nothing ↦ rw (take_events-none (suc n) a nothing) nothing
  | inr ((e, r), found) ↦
      let shorter = length-split_event a e r found in
      rw (take_events-some n a e r found) (take_events-left n r (omega (arith, shorter, h)))
]

-- The events of a text in two parts: those of the first, then those of what it leaves and the second.
abbrev Parts : ℕ → ℕ → Text → Text → Type 0
Parts n m a b =
    (take_events m (a ++ b)).0 ≡ (take_events n a).0 ++ (drain_buffer ((take_events n a).1 ++ b)).0

Parts-none : (n m : ℕ) (a b : Text) → length (a ++ b) ≤ m → split_event a ≡ none → Parts n m a b
unfolding drain_buffer
Parts-none n m a b k nothing =
    rw (take_events-none n a nothing)
      (ap (λ p. p.0) (take_events-fuel m (length (a ++ b)) (a ++ b) k (omega arith)))

-- The events of a text in two parts: those of the first, then those of what it leaves and the second.
take_events-append : (n m : ℕ) (a b : Text) → length a ≤ n → length (a ++ b) ≤ m → Parts n m a b
take_events-append zero m a b h k = elim (Option-cases (split_event a)) [
  | inl nothing ↦ Parts-none zero m a b k nothing
  | inr ((e, r), found) ↦ absurd (omega (arith, length-split_event a e r found))
]
take_events-append (suc n) zero a b h k = elim (Option-cases (split_event a)) [
  | inl nothing ↦ Parts-none (suc n) zero a b k nothing
  | inr ((e, r), found) ↦
      let longer = split_event-append a b e r found in
      absurd (omega (arith, length-split_event (a ++ b) e (r ++ b) longer))
]
take_events-append (suc n) (suc m) a b h k = elim (Option-cases (split_event a)) [
  | inl nothing ↦ Parts-none (suc n) (suc m) a b k nothing
  | inr ((e, r), found) ↦
      let longer = split_event-append a b e r found in
      let rest =
        take_events-append n m r b (omega (arith, length-split_event a e r found))
          (omega (arith, length-split_event (a ++ b) e (r ++ b) longer)) in
      rw (take_events-some m (a ++ b) e (r ++ b) longer, take_events-some n a e r found)
        (ap (◌∷◌ e) rest)
]

drain-append :
    (a b : Text)
    → (drain_buffer (a ++ b)).0 ≡ (drain_buffer a).0 ++ (drain_buffer ((drain_buffer a).1 ++ b)).0
unfolding drain_buffer
drain-append a b = take_events-append (length a) (length (a ++ b)) a b (omega arith) (omega arith)

drain-none : (a : Text) → split_event a ≡ none → drain_buffer a ≡ ([], a)
unfolding drain_buffer
drain-none a h = take_events-none (length a) a h

drain-left : (a : Text) → split_event (drain_buffer a).1 ≡ none
unfolding drain_buffer
drain-left a = take_events-left (length a) a (omega arith)

-- All the text that the chunks decode to.
abbrev pub joined : (List ℕ → Text) → List (List ℕ) → Text
joined decode [] = []
joined decode (b ∷ bs) = decode b ++ joined decode bs

module _ {S : Type 0} (on_data : Text → S → List (Outcome StreamChunk) × S) where
  read_events-append :
      (xs ys : List Text) (s : S)
      → (read_events on_data (xs ++ ys) s).0
        ≡ (read_events on_data xs s).0 ++ (read_events on_data ys (read_events on_data xs s).1).0
  unfolding read_events
  read_events-append [] ys s = refl
  read_events-append (x ∷ xs) ys s =
      let (now, s') = read_sse_lines on_data (lines x) s in
      ap (λ l. now ++ l) (read_events-append xs ys s')
      ∙ sym (append_assoc now (read_events on_data xs s').0 _)

  read_chunks-from :
      (decode : List ℕ → Text) (bs : List (List ℕ)) (buffer : Text) (s : S)
      → split_event buffer ≡ none
      → read_chunks on_data decode (map bytes bs) buffer s
        ≡ (read_events on_data (drain_buffer (buffer ++ joined decode bs)).0 s).0
  unfolding read_chunks read_events
  read_chunks-from decode [] buffer s h = rw (append-nil buffer, drain-none buffer h)
  read_chunks-from decode (b ∷ bs) buffer s h =
      let (events, left) = drain_buffer (buffer ++ decode b) in
      let (now, s') = read_events on_data events s in
      let rest = read_chunks-from decode bs left s' (drain-left (buffer ++ decode b)) in
      let cut = drain-append (buffer ++ decode b) (joined decode bs) in
      let more = (drain_buffer (left ++ joined decode bs)).0 in
      ap (λ l. now ++ l) rest
      ∙ (sym (read_events-append events more s)
          ∙ (ap (λ es. (read_events on_data es s).0) (sym cut)
              ∙ ap (λ t. (read_events on_data (drain_buffer t).0 s).0)
                  (append_assoc buffer (decode b) (joined decode bs))))

  -- What a stream yields without an error of the connection does not depend on how its bytes are cut
  -- into chunks that decode to the same text: it is what the events of the whole text yield.
  pub read_chunks-joined :
      (decode : List ℕ → Text) (bs : List (List ℕ)) (s : S)
      → read_chunks on_data decode (map bytes bs) [] s
        ≡ (read_events on_data (drain_buffer (joined decode bs)).0 s).0
  unfolding split_event
  read_chunks-joined decode bs s = read_chunks-from decode bs [] s refl
