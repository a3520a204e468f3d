-- ===== src/Examples/Debounce.antt =====
-- src/ingress/debounce.rs on two messages of a chat.
use zier_alpha.Prelude.Dict
use zier_alpha.Prelude.Dict.{test_at}
use zier_alpha.Prelude.{
  ℕ, ◌+◌, ◌≡◌, refl, String, List, [], ◌∷◌, ◌++◌, none, some, map, codes, arith, true,
  if◌then◌else◌, keep, len_utf8,
}
use zier_alpha.Ingress.Types.{IngressMessage, owner_command}
use zier_alpha.Ingress.Debounce.{
  IngressDebounceConfig, DebounceManager, new, ingest, flush_ready, over_limits, combine, is_ready,
  pushed, check_limits, char_count, collect_ready, combine_session, earliest, all_images,
}
use zier_alpha.Ingress.Debounce.Buffers.{pending}
use zier_alpha.Ingress.Debounce.Flush.{
  IsValid, new-IsValid, ingest-IsValid, flush_ready_lem, combined,
}
use zier_alpha.Ingress.Worker.{Branch, received, ticked, worker}
use zier_alpha.Ingress.Worker.Batches.{Batches, from, messages, worker-Batches}
use zier_alpha.Ingress.Debounce.Limits.{ingest-over_limits, after_push}

abbrev settings : IngressDebounceConfig
settings = record { debounce_seconds = 2; max_debounce_messages = 1; max_debounce_chars = 100 }

abbrev message : ℕ → ℕ → String → IngressMessage
message uuid time text = record {
  id = uuid;
  source = "telegram";
  payload = codes text;
  trust = owner_command;
  timestamp = time;
  images = [];
}

abbrev hello : IngressMessage
hello = message 1 5 "hi"

abbrev again : IngressMessage
again = message 2 7 "there"

abbrev start : ℕ
start = 10000000000

-- After the first message, and after the second, which goes over the limit of one.
abbrev one : DebounceManager
one = record {
  sessions = ("telegram", record { buffer = hello ∷ []; last_update = start }) ∷ [];
  config = settings;
}

abbrev two : DebounceManager
two = record {
  sessions = ("telegram", record { buffer = hello ∷ again ∷ []; last_update = 7000000001 }) ∷ [];
  config = settings;
}

ingest-one : ingest (new settings) hello start start ≡ some one
unfolding ingest check_limits pushed over_limits char_count len_utf8 Dict.get Dict.insert
ingest-one = refl

ingest-two : ingest one again start (start + 1) ≡ some two
unfolding ingest check_limits pushed over_limits char_count len_utf8 Dict.get Dict.insert
ingest-two = refl

one-IsValid : IsValid one
one-IsValid = ingest-IsValid (new settings) one hello start start (new-IsValid settings) ingest-one

two-IsValid : IsValid two
two-IsValid = ingest-IsValid one two again start (start + 1) one-IsValid ingest-two

ingest-IsValid_example : IsValid one
ingest-IsValid_example =
    ingest-IsValid (new settings) one hello start start (new-IsValid settings) ingest-one

abbrev fresh : String → ℕ
fresh source = 9

abbrev both : IngressMessage
both = combine 9 "telegram" hello (again ∷ [])

flush_two : flush_ready two (start + 1) fresh ≡ some (both ∷ [], new settings)
unfolding flush_ready collect_ready is_ready combine_session combine earliest all_images
    Dict.remove_all Dict.remove
flush_two = refl

ingest_over : over_limits settings (after_push one again start) ≡ true
unfolding over_limits char_count len_utf8 pushed Dict.get
ingest_over = refl

ingest-over_limits_example :
    (pending "telegram" (new settings) ≡ [])
    × Batches "telegram" (both ∷ []) (pending "telegram" one ++ again ∷ [])
ingest-over_limits_example =
    ingest-over_limits one two (new settings) again start (start + 1) (start + 1) fresh (both ∷ [])
      one-IsValid ingest-two ingest_over (omega arith) flush_two

flush_ready_lem_example :
    (out : List IngressMessage) × (e : DebounceManager) × (flush_ready two 7000000000 fresh
      ≡ some (out, e))
    × (map some out
        ≡ map (combined fresh) (keep (λ s. is_ready two.config 7000000000 s.1) two.sessions))
    × ((k : String)
        → Dict.get k e.sessions ≡ (
            if test_at (is_ready two.config 7000000000) (Dict.get k two.sessions)
            then none
            else Dict.get k two.sessions))
    × (e.config ≡ two.config)
    × IsValid e
flush_ready_lem_example = flush_ready_lem two 7000000000 fresh two-IsValid

-- The second message comes after a tick at which the first one is still held back.
abbrev talk : List Branch
talk = received hello start start ∷ ticked (start + 1) fresh ∷ received again start (start + 1) ∷ []

worker-Batches_example :
    (out : List IngressMessage) × (worker settings fresh talk ≡ some out)
    × ((k : String) → Batches k out (from k (messages talk)))
worker-Batches_example = worker-Batches settings fresh talk (omega arith, (omega arith, tt))
