-- ===== src/Exemptions/Tables.antt =====
-- src/mask/exemptions.rs: the tables of key names. A hash set that is only asked for membership is
-- a list.
use maskit_rs.Base.{ℕ, ◌++◌, List, Text, map, codes, [], ◌∷◌}

-- Scalar keys of the protocols' metadata.
unfoldable pub skip_scalar_keys : List Text
skip_scalar_keys = map codes (
    "model" ∷ "object" ∷ "finish_reason" ∷ "stop_reason" ∷ "citations" ∷ "detail"
    ∷ "encoding_format" ∷ "media_type" ∷ [])

-- Keys whose whole subtree is skipped.
unfoldable pub skip_subtree_keys : List Text
skip_subtree_keys = map codes ("cache_control" ∷ [])

-- The containers in which `role` and `type` are exempt.
unfoldable pub role_type_parents : List Text
role_type_parents = map codes (
    "message" ∷ "messages" ∷ "content" ∷ "contents" ∷ "parts" ∷ "block" ∷ "blocks" ∷ "tools"
    ∷ "tool" ∷ "tool_calls" ∷ "function" ∷ "response_format" ∷ "candidates" ∷ "choices" ∷ "output"
    ∷ [])

-- The containers in which `id` is exempt.
unfoldable pub protocol_id_parents : List Text
protocol_id_parents = map codes (
    "message" ∷ "messages" ∷ "content" ∷ "contents" ∷ "parts" ∷ "block" ∷ "blocks" ∷ "tool_calls"
    ∷ "tool_use" ∷ "response" ∷ "output" ∷ "data" ∷ "object" ∷ "candidates" ∷ "choices"
    ∷ "function_call" ∷ [])

-- The containers of tool names and media.
unfoldable pub protocol_parents : List Text
protocol_parents = map codes (
    "function" ∷ "functions" ∷ "function_call" ∷ "functionCall" ∷ "tool_use" ∷ "tools" ∷ "tool"
    ∷ "image_url" ∷ "inline_data" ∷ "thumbnail" ∷ "input_image" ∷ "source" ∷ "file" ∷ "input_audio"
    ∷ "input_file" ∷ "video_url" ∷ [])

-- The containers in which a media key is exempt.
unfoldable pub media_value_parents : List Text
media_value_parents = map codes (
    "content" ∷ "contents" ∷ "parts" ∷ "message" ∷ "messages" ∷ "input" ∷ "output" ∷ "file"
    ∷ "input_image" ∷ "input_file" ∷ "image_url" ∷ "source" ∷ "inline_data" ∷ "tool_use"
    ∷ "function" ∷ "attachments" ∷ [])

-- Keys of media and file payloads.
unfoldable pub media_value_keys : List Text
media_value_keys = map codes ("image_url" ∷ "file_data" ∷ "video_url" ∷ [])

-- Keys that are skipped by their position.
unfoldable pub skip_keys : List Text
skip_keys =
    map codes ("id" ∷ "tool_call_id" ∷ "tool_use_id" ∷ "name" ∷ "url" ∷ "data" ∷ "b64_json" ∷ [])

-- The ids that correlate tool calls.
unfoldable pub correlation_id_keys : List Text
correlation_id_keys = map codes ("tool_call_id" ∷ "tool_use_id" ∷ "call_id" ∷ [])

-- Keys that open a business zone.
unfoldable pub business_keys : List Text
business_keys = map codes ("input" ∷ "arguments" ∷ "parameters" ∷ "partial_json" ∷ "documents" ∷ [])

-- Keys of numeric parameters.
unfoldable pub skip_numeric_keys : List Text
skip_numeric_keys = map codes (
    "max_tokens" ∷ "max_completion_tokens" ∷ "max_tokens_to_sample" ∷ "budget_tokens"
    ∷ "temperature" ∷ "top_p" ∷ "top_k" ∷ "n" ∷ "seed" ∷ "index" ∷ "created" ∷ "logprobs"
    ∷ "top_logprobs" ∷ "presence_penalty" ∷ "frequency_penalty" ∷ "best_of" ∷ "timeout"
    ∷ "prompt_tokens" ∷ "completion_tokens" ∷ "total_tokens" ∷ "input_tokens" ∷ "output_tokens"
    ∷ "cache_creation_input_tokens" ∷ "cache_read_input_tokens" ∷ "reasoning_tokens" ∷ "status_code"
    ∷ "http_status" ∷ "retry" ∷ "attempt" ∷ "weight" ∷ "priority" ∷ [])

-- Keys whose value is JSON as a text.
unfoldable pub json_str_keys : List Text
json_str_keys = map codes ("arguments" ∷ "partial_json" ∷ [])

-- The names beside the eight tables, in the order of the source.
unfoldable pub protocol_words : List Text
protocol_words = map codes (
    "role" ∷ "type" ∷ "content" ∷ "contents" ∷ "parts" ∷ "messages" ∷ "message" ∷ "system" ∷ "user"
    ∷ "assistant" ∷ "tool" ∷ "tools" ∷ "function" ∷ "functions" ∷ "prompt" ∷ "input" ∷ "output"
    ∷ "text" ∷ "delta" ∷ "choices" ∷ "candidates" ∷ "usage" ∷ "error" ∷ "code" ∷ "status"
    ∷ "version" ∷ "headers" ∷ "request" ∷ "response" ∷ "metadata" ∷ "stream" ∷ "stop"
    ∷ "stop_sequences" ∷ "logit_bias" ∷ "response_format" ∷ "stream_options" ∷ "parallel_tool_calls"
    ∷ "tool_choice" ∷ "system_instruction" ∷ "generationConfig" ∷ "safetySettings" ∷ "toolConfig"
    ∷ "functionDeclarations" ∷ "functionCall" ∷ "inline_data" ∷ "image_url" ∷ "file_data" ∷ "source"
    ∷ "anthropic_version" ∷ "thinking" ∷ "signature" ∷ "schema" ∷ "json_schema" ∷ "format"
    ∷ "definitions" ∷ "$defs" ∷ "$ref" ∷ "$schema" ∷ "properties" ∷ "required" ∷ "items" ∷ "enum"
    ∷ "const" ∷ "description" ∷ "title" ∷ "additionalProperties" ∷ "anyOf" ∷ "oneOf" ∷ "allOf"
    ∷ "not" ∷ "if" ∷ "then" ∷ "else" ∷ "minimum" ∷ "maximum" ∷ "exclusiveMinimum"
    ∷ "exclusiveMaximum" ∷ "minLength" ∷ "maxLength" ∷ "minItems" ∷ "maxItems" ∷ "pattern"
    ∷ "default" ∷ "examples" ∷ "nullable" ∷ "strict" ∷ "name" ∷ "strict_mode" ∷ "cache_control"
    ∷ "ttl" ∷ "ephemeral" ∷ "temperature" ∷ "top_p" ∷ "top_k" ∷ "n" ∷ "max_tokens"
    ∷ "max_completion_tokens" ∷ "max_output_tokens" ∷ "presence_penalty" ∷ "frequency_penalty"
    ∷ "seed" ∷ "logprobs" ∷ "top_logprobs" ∷ "modalities" ∷ "audio" ∷ "prediction" ∷ "store"
    ∷ "service_tier" ∷ "reasoning" ∷ "reasoning_effort" ∷ "thinking_budget" ∷ "betas"
    ∷ "anthropic_beta" ∷ "context_management" ∷ "mcp_servers" ∷ "container" ∷ "generation_config"
    ∷ "safety_settings" ∷ "candidate_count" ∷ "systemInstruction" ∷ "session_id" ∷ "request_id"
    ∷ "keep_alive" ∷ "options" ∷ "api_key" ∷ "x_api_key" ∷ "authorization" ∷ "instructions"
    ∷ "tool_config" ∷ [])

-- Key names that are never masked.
unfoldable pub protected_key_names : List Text
protected_key_names =
    skip_scalar_keys ++ skip_subtree_keys ++ skip_keys ++ correlation_id_keys ++ role_type_parents
    ++ protocol_parents ++ protocol_id_parents ++ business_keys ++ protocol_words

abbrev pub root_wrap_key : Text
root_wrap_key = codes "__shield_root__"

abbrev pub mask_max_depth : ℕ
mask_max_depth = 24

abbrev pub restore_max_depth : ℕ
restore_max_depth = 24
