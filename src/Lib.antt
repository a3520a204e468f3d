-- ===== src/Lib.antt =====
-- A verification library for the core of Zier Alpha, an agent runtime.
--
-- Messages come in over the ingress bus, where those of one source are held back and combined
-- (Ingress.Debounce, in the loop of Ingress.Worker) and handled by the trust that their source has
-- (Ingress.Handling, with the tools of Agent.Tools); requests for a person's approval go out and
-- their answers come in (Ingress.Approval). An agent keeps a conversation within the context of its model
-- (Agent.Session, compacted by Agent.SessionManager), asks a model and then its fallbacks
-- (Agent.Client, over the settings that Config resolves), and runs the tools that the model calls
-- if they are approved (Agent.ToolExecutor), whose output is cut and put between delimiters
-- (Agent.Sanitize). The files that a tool may reach are checked by Agent.ToolPath, and the
-- commands of a script by Scripting.Safety. Files are cut into chunks for the memory index
-- (Memory). The loop of an agent, from a message to the answer with the tools in between, is
-- Agent.ChatEngine, which works on the session, the executor and the client; what is sent to the
-- model services and read from their streams is Agent.Providers.
--
-- - Ingress.Types, Ingress.Debounce: src/ingress/types.rs and src/ingress/debounce.rs.
--   `DebounceManager` and its `ingest`, `flush_ready` and `flush_all` have their names; `pushed` and
--   `check_limits` are the two halves of `ingest`, `combine` is the body of `combine_session`.
-- - Config.Models: src/config/models.rs. `collect_chain` is the loop over the parents and
--   `merge_chain` the merge of `resolve_model_config`. The loop takes fuel, two more rounds than
--   there are models; each round visits a model that was not visited, so the fuel is enough.
-- - Agent.LlmError: src/agent/llm_error.rs.
-- - Agent.Client and Agent.Client.Chat: src/agent/client.rs. `provider_spec` is the choice that
--   `create_provider_from_config` makes, `attempt` is one round of the loop of `chat` and of
--   `chat_stream`, and `try_candidates` is the loop.
-- - Agent.Messages, Agent.Session: src/agent/session.rs and the messages of src/agent/providers.rs.
--   `summarized` is what `compact_native` does with a summary.
-- - Agent.Sanitize: src/agent/sanitize.rs.
-- - Agent.ToolExecutor: src/agent/tool_executor.rs. `dispatch` is the loop over the tools of
--   `execute_tool`, and `finish` what is done with a tool's output.
-- - Memory.Chunks: `chunk_text` of src/memory/index.rs. `chunk_loop` is its loop over the lines.
-- - Config.Schema: src/config/schema.rs. `duration_loop` is the loop of `parse_duration`; `hour_minute`
--   and `in_range` are the parts of `parse_time`.
-- - Ingress.Worker: src/ingress/controller.rs, the worker that `ingress_loop` starts. `turn` is a turn of
--   its loop on the branch of `select!` that a `Branch` stands for, `turns` the loop and the flush after
--   the channel is closed. It gives the messages for which a task is started.
-- - Ingress.Handling: src/ingress/handler.rs, by the trust level of the message: `on_owner_command`,
--   `on_trusted_event` and `on_untrusted_event` are the branches of `process_ingress_message`. It gives
--   the list of what was done, the last act first, with the tools and the context of the agent in each
--   turn; `new_session` is what `Agent::new_session` of src/agent/mod.rs does to the session.
-- - Ingress.Approval and Ingress.Approval.Steps: src/ingress/approval.rs. `register`, `send_failed` and
--   `on_event` are the steps of `request`; `resolve` and `cleanup` have their names. `Step` puts
--   the steps of all requests in any order.
-- - Agent.ToolPath: src/agent/tools/path.rs. `check_path` and `allowed_roots` are the first two parts
--   of `check_path_permitted`, `under_a_root` its last loop.
-- - Scripting.Safety: src/scripting/safety.rs. `cwd_allowed`, `chaining` and `check_text` are the
--   parts of `check_command`, in order.
-- - Agent.SessionManager: src/agent/session_manager.rs and src/agent/compaction.rs. `retry` is the loop
--   over the fallback models of `compact_session`, `fall_back` what follows a first failure.
-- - Agent.DiskMonitor: src/agent/disk_monitor.rs. `cleanup_logs` is the second part of `cleanup`, and
--   `delete_logs` its loop.
-- - Agent.Tools: src/agent/tools.rs and src/agent/tools/registry.rs. A `Machine` is what the operating
--   system does. Agent.Tools.Files has `read_file`, `write_file` and `edit_file` (`page` is the part of
--   `read_file` that selects the lines, `write_request` and `edit_request` what comes before the first
--   change), Agent.Tools.Recall `memory_search` and `memory_get`, Agent.Tools.Commands `bash`,
--   `web_fetch` and `extract_tool_detail`, Agent.Tools.Registry `build`.
-- - Agent.ChatEngine: src/agent/chat_engine.rs, and `describe_image` of src/capabilities/vision.rs.
--   Agent.ChatEngine.Turns has the turns without streaming; `respond` is the body of
--   `handle_response_internal`, `run_calls` its loop over the calls. Agent.ChatEngine.Streams has
--   `stream_with_tool_loop`; `stream_turns` takes the iterations that are left. Agent.Action is the
--   monad of methods that change a state and may fail. `handle_response` takes fuel, one unit for
--   each answer of the model; two more than the answers with tool calls are enough.
-- - Agent.Json: values of serde_json. Agent.Session.Format: `format_message_entry` and
--   `parse_pi_message` of src/agent/session.rs. Agent.Session.Files: `save_to_path`,
--   `load_from_path`, `auto_save` and `replace_messages_from_json`, on the text of a file. What serde
--   derives and chrono prints are parameters.
-- - Agent.Providers: src/agent/providers.rs. Agent.Providers.Sse is the loop over the bytes of a stream
--   that both providers have; `take_events` takes fuel, the length of the buffer, of which each
--   event takes a part. Agent.Providers.OpenAi and Agent.Providers.Anthropic have the requests and
--   the answers, their children `Stream` the events; a `ToolCallBuilder` is kept for each index.
--   Agent.Providers.Create is `create_provider`, Agent.Providers.Ollama and Agent.Providers.ClaudeCli
--   the other providers; `take_lines` takes fuel, the length of the buffer.
-- - Agent.SessionStore: src/agent/session_store.rs. The entries of the file are an argument of
--   `load_and_update`.
-- - Agent.Skills: src/agent/skills.rs. `fenced` is the search for the dashes in `parse_frontmatter`,
--   `find_skill` the loop of `parse_skill_command`.
-- - State.Sessions: src/state/session_manager.rs. `auto_save_round` is one round of its task, with
--   `save` and `save_file` for `Session::save`, which may fail before or after the file is created.
-- - Prelude: Boolean tests, lists, texts and maps that these share. Examples: concrete runs.
--
-- A text is the list of its characters' code points, and its length in bytes is that of UTF-8; a
-- `HashMap` is an association list in the order of iteration; a name that is only compared is a
-- native string. The clock, fresh identifiers, the file system, regular expressions, globs, the
-- tokenizer, the environment and the providers of the models are parameters. A lock is not
-- modelled: each operation runs under one, as a single step. A sum that does not come near the
-- bound of its machine type is not wrapped; where a counter can, the wrap is written out.
--
-- Not modelled: the servers, the command line, the desktop and the Telegram client, which are input
-- and output; the heartbeat and the scheduler; the locks between tasks and processes; the Deno
-- host; SQL; external tools and MCP; HTTP; and the lists and searches of the files in which sessions are kept.
pub mod Prelude
pub mod Ingress
pub mod Config
pub mod Agent
pub mod State
pub mod Scripting
pub mod Memory
pub mod Examples
