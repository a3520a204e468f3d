-- ===== src/Agent/Providers/OpenAi/Streamed.antt =====
-- src/agent/providers.rs, `OpenAIProvider::chat_stream`: what the fragments of a stream come to.
use zier_alpha.Prelude.{
  ℕ, ◌≡◌, sym, ap, ◌∙◌, Text, List, [], ◌∷◌, ◌++◌, append_assoc, append-nil, Option, none, some,
  nat_eq, arith, ◌>>=◌, Bool-cases, inl, inr, if◌then◌else◌,
}
use zier_alpha.Agent.Json.{Json, get, as_str}
use zier_alpha.Agent.Providers.OpenAi.Stream.{
  Pending, change_at, add_fragment, fragment_index, add_at, add_fragments, or_empty,
}

-- The arguments that the builder at an index has so far.
abbrev pub arguments_at : ℕ → Pending → Text
arguments_at i [] = []
arguments_at i ((j, b) ∷ p) = if nat_eq j i then b.arguments else arguments_at i p

-- The part of the arguments that a fragment adds at an index.
abbrev piece_at : ℕ → Json → Option ℕ → Text
piece_at i tc none = []
piece_at i tc (some j) =
    if nat_eq j i then or_empty (get "function" tc >>= get "arguments" >>= as_str) else []

abbrev pub piece : ℕ → Json → Text
piece i tc = piece_at i tc (fragment_index tc)

-- The pieces of the fragments with an index, one after the other.
abbrev pub pieces : ℕ → List Json → Text
pieces i [] = []
pieces i (tc ∷ tcs) = piece i tc ++ pieces i tcs

arguments_at-change_at :
    (i j : ℕ) (tc : Json) (p : Pending)
    → arguments_at i (change_at j (add_fragment tc) p) ≡ (
        if nat_eq j i
        then arguments_at i p ++ or_empty (get "function" tc >>= get "arguments" >>= as_str)
        else arguments_at i p)
unfolding change_at add_fragment
arguments_at-change_at i j tc [] = ground arith
arguments_at-change_at i j tc ((k, b) ∷ p) = ground (arith, arguments_at-change_at i j tc p)

arguments_at-add_at :
    (i : ℕ) (tc : Json) (o : Option ℕ) (p : Pending)
    → arguments_at i (add_at tc o p) ≡ arguments_at i p ++ piece_at i tc o
unfolding add_at
arguments_at-add_at i tc none p = sym (append-nil (arguments_at i p))
arguments_at-add_at i tc (some j) p = elim (Bool-cases (nat_eq j i)) [
  | inl here ↦ rw (arguments_at-change_at i j tc p, here)
  | inr there ↦ rw (arguments_at-change_at i j tc p, there) (sym (append-nil (arguments_at i p)))
]

-- The arguments of each pending call are what they were, and then the pieces of the fragments with its
-- index, in the order in which they came and whatever comes between them.
pub arguments_at-add_fragments :
    (i : ℕ) (tcs : List Json) (p : Pending)
    → arguments_at i (add_fragments tcs p) ≡ arguments_at i p ++ pieces i tcs
unfolding add_fragments add_at
arguments_at-add_fragments i [] p = sym (append-nil (arguments_at i p))
arguments_at-add_fragments i (tc ∷ tcs) p =
    arguments_at-add_fragments i tcs (add_at tc (fragment_index tc) p)
    ∙ (ap (λ t. t ++ pieces i tcs) (arguments_at-add_at i tc (fragment_index tc) p)
        ∙ append_assoc (arguments_at i p) (piece i tc) (pieces i tcs))
