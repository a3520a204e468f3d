-- ===== src/Agent/Session/Reread.antt =====
-- src/agent/session.rs: a message that is written and read again.
use zier_alpha.Prelude.Strings.{from_codes, from_codes-codes}
use zier_alpha.Prelude.{
  ℕ, ◌≡◌, refl, ap, ◌∙◌, String, Text, List, [], ◌∷◌, Option, none, some, All, ◌>>=◌,
}
use zier_alpha.Agent.LlmError.{ToolCall}
use zier_alpha.Agent.Messages.{MessageUsage, SessionMessage}
use zier_alpha.Agent.Json.{
  Json, null, number, string, array, object, Fields, end, field, items, put_option, map_some,
  get_field, index, as_str, as_u64,
}
use zier_alpha.Agent.Json.Lookup.{found, get_field-puts, or_else-none}
use zier_alpha.Agent.Session.Format.{
  Serde, pi_role, format_content, format_calls, format_id, format_usage, format_message,
  parse_images, parse_content, parse_calls, parse_pi_message, parsed_message, option_or,
}
use zier_alpha.Agent.Session.Parsed.{
  HasNoComma, parse_images-format_content, parse_content-format_content, parse_calls-format_calls,
  parse_role-pi_role,
}

module _ (d : Serde) where
  -- The usage is read as it was written, and none is read where none was.
  abbrev pub UsageReads : Option MessageUsage → Type 0
  UsageReads none = d.usage_from_value null ≡ none
  UsageReads (some u) = d.usage_from_value (format_usage d u) ≡ some u

  -- What a message needs to come back: no comma in a media type, and a usage that serde reads back.
  abbrev pub IsStorable : SessionMessage → Type 0
  IsStorable sm = All HasNoComma sm.message.images × UsageReads sm.usage

  abbrev optional : SessionMessage → List (String × Option Json)
  optional sm =
      ("timestamp", some (number sm.timestamp))
      ∷ ("latencyMs", map_some number sm.latency_ms)
      ∷ ("modelConfigName", map_some string sm.model_config_name)
      ∷ ("stopReason", map_some string sm.stop_reason)
      ∷ ("usage", map_some (format_usage d) sm.usage)
      ∷ ("api", map_some string sm.api)
      ∷ ("model", map_some string sm.model)
      ∷ ("provider", map_some string sm.provider)
      ∷ ("toolCallId", map_some format_id sm.message.tool_call_id)
      ∷ ("toolCalls", map_some format_calls sm.message.tool_calls)
      ∷ []

  abbrev required : SessionMessage → Fields
  required sm =
      field "role" (string (pi_role sm.message.role))
        (field "content" (array (items (format_content sm.message.content sm.message.images))) end)

  get_field-format_message :
      (k : String) (sm : SessionMessage)
      → get_field k (format_message d sm) ≡ found k (optional sm) (get_field k (required sm))
  unfolding format_message put_option
  get_field-format_message k sm = get_field-puts k (optional sm) (required sm)

  abbrev Finds : String → SessionMessage → Option Json → Type 0
  Finds k sm o = get_field k (format_message d sm) ≡ o

  Finds-content :
      (sm : SessionMessage)
      → Finds "content" sm
          (some (array (items (format_content sm.message.content sm.message.images))))
  unfolding get_field
  Finds-content sm = get_field-format_message "content" sm

  Finds-role : (sm : SessionMessage) → Finds "role" sm (some (string (pi_role sm.message.role)))
  unfolding get_field
  Finds-role sm = get_field-format_message "role" sm

  Finds-timestamp : (sm : SessionMessage) → Finds "timestamp" sm (some (number sm.timestamp))
  unfolding get_field
  Finds-timestamp sm = get_field-format_message "timestamp" sm

  Finds-latency : (sm : SessionMessage) → Finds "latencyMs" sm (map_some number sm.latency_ms)
  unfolding get_field
  Finds-latency sm =
      get_field-format_message "latencyMs" sm ∙ or_else-none (map_some number sm.latency_ms)

  Finds-name :
      (sm : SessionMessage) → Finds "modelConfigName" sm (map_some string sm.model_config_name)
  unfolding get_field
  Finds-name sm =
      get_field-format_message "modelConfigName" sm
      ∙ or_else-none (map_some string sm.model_config_name)

  Finds-reason : (sm : SessionMessage) → Finds "stopReason" sm (map_some string sm.stop_reason)
  unfolding get_field
  Finds-reason sm =
      get_field-format_message "stopReason" sm ∙ or_else-none (map_some string sm.stop_reason)

  Finds-usage : (sm : SessionMessage) → Finds "usage" sm (map_some (format_usage d) sm.usage)
  unfolding get_field
  Finds-usage sm =
      get_field-format_message "usage" sm ∙ or_else-none (map_some (format_usage d) sm.usage)

  Finds-api : (sm : SessionMessage) → Finds "api" sm (map_some string sm.api)
  unfolding get_field
  Finds-api sm = get_field-format_message "api" sm ∙ or_else-none (map_some string sm.api)

  Finds-model : (sm : SessionMessage) → Finds "model" sm (map_some string sm.model)
  unfolding get_field
  Finds-model sm = get_field-format_message "model" sm ∙ or_else-none (map_some string sm.model)

  Finds-provider : (sm : SessionMessage) → Finds "provider" sm (map_some string sm.provider)
  unfolding get_field
  Finds-provider sm =
      get_field-format_message "provider" sm ∙ or_else-none (map_some string sm.provider)

  Finds-id :
      (sm : SessionMessage) → Finds "toolCallId" sm (map_some format_id sm.message.tool_call_id)
  unfolding get_field
  Finds-id sm =
      get_field-format_message "toolCallId" sm
      ∙ or_else-none (map_some format_id sm.message.tool_call_id)

  Finds-calls :
      (sm : SessionMessage) → Finds "toolCalls" sm (map_some format_calls sm.message.tool_calls)
  unfolding get_field
  Finds-calls sm =
      get_field-format_message "toolCalls" sm
      ∙ or_else-none (map_some format_calls sm.message.tool_calls)

  -- A field that may be missing, read by `as_str`.
  abbrev value : Option Json → Json
  value none = null
  value (some v) = v

  as_str-value : (o : Option Text) → as_str (value (map_some string o)) ≡ o
  as_str-value none = refl
  as_str-value (some t) = refl

  as_str-get : (o : Option Text) → (map_some string o >>= as_str) ≡ o
  as_str-get none = refl
  as_str-get (some t) = refl

  as_u64-get : (o : Option ℕ) → (map_some number o >>= as_u64) ≡ o
  as_u64-get none = refl
  as_u64-get (some n) = refl

  id-value : (o : Option String) → map_some from_codes (as_str (value (map_some format_id o))) ≡ o
  id-value none = refl
  id-value (some s) = ap some (from_codes-codes s)

  calls-value : (o : Option (List ToolCall)) → parse_calls (value (map_some format_calls o)) ≡ o
  unfolding parse_calls
  calls-value none = refl
  calls-value (some calls) = parse_calls-format_calls calls

  usage-value :
      (o : Option MessageUsage)
      → UsageReads o
      → d.usage_from_value (value (map_some (format_usage d) o)) ≡ o
  usage-value none h = h
  usage-value (some u) h = h

  parsed_message-format_message :
      (sm : SessionMessage)
      → IsStorable sm
      → parsed_message d sm.message.role (object (format_message d sm)) ≡ sm
  unfolding parsed_message
  parsed_message-format_message sm (plain_images, usage) =
      let text_of = sm.message.content in
      let images_of = sm.message.images in
      let calls =
        ap (λ o. parse_calls (value o)) (Finds-calls sm) ∙ calls-value sm.message.tool_calls in
      let id =
        ap (λ o. map_some from_codes (as_str (value o))) (Finds-id sm)
        ∙ id-value sm.message.tool_call_id in
      let body =
        ap (λ o. parse_content (value o)) (Finds-content sm)
        ∙ parse_content-format_content text_of images_of in
      let images =
        ap (λ o. parse_images (value o)) (Finds-content sm)
        ∙ parse_images-format_content text_of images_of plain_images in
      let str : Option Json → Option Text = λ o. as_str (value o) in
      let provider = ap str (Finds-provider sm) ∙ as_str-value sm.provider in
      let model = ap str (Finds-model sm) ∙ as_str-value sm.model in
      let api = ap str (Finds-api sm) ∙ as_str-value sm.api in
      let reason = ap str (Finds-reason sm) ∙ as_str-value sm.stop_reason in
      let used =
        ap (λ o. d.usage_from_value (value o)) (Finds-usage sm) ∙ usage-value sm.usage usage in
      let time = ap (λ o. option_or 0 (as_u64 (value o))) (Finds-timestamp sm) in
      let name = ap (λ o. o >>= as_str) (Finds-name sm) ∙ as_str-get sm.model_config_name in
      let latency = ap (λ o. o >>= as_u64) (Finds-latency sm) ∙ as_u64-get sm.latency_ms in
      λ i. record {
        message = record {
          role = sm.message.role;
          content = body i;
          tool_calls = calls i;
          tool_call_id = id i;
          images = images i;
        };
        provider = provider i;
        model = model i;
        api = api i;
        usage = used i;
        stop_reason = reason i;
        timestamp = time i;
        model_config_name = name i;
        latency_ms = latency i;
      }

  pub parse_pi_message-format_message :
      (sm : SessionMessage)
      → IsStorable sm
      → parse_pi_message d (object (format_message d sm)) ≡ some sm
  unfolding parse_pi_message
  parse_pi_message-format_message sm h =
      let named : as_str (index "role" (object (format_message d sm)))
          ≡ some (pi_role sm.message.role) =
        ap (λ o. as_str (value o)) (Finds-role sm) in
      rw (
        parse_pi_message,
        named,
        parse_role-pi_role sm.message.role,
        parsed_message-format_message sm h,
      )
