-- ===== src/Lib.antt =====
-- maskit: a gateway that masks sensitive values in requests to language models and restores them in
-- the answers. This library models the parts that decide what is masked, which token stands for
-- which value, and where tokens may stand in a streamed answer.
--
-- How the parts work together. A request body is classified (`src/detect/mod.rs`) and walked as
-- JSON, where `src/mask/exemptions.rs` says which leaves and keys are left alone. Candidates that
-- the rules find pass the checks of `src/mask/validators.rs`. A value that is masked gets a token
-- `{{LABEL_suffix}}` from `src/mask/session.rs`, made by `src/mask/placeholder.rs`; the tokens of an
-- answer are looked up there again by the passes of `src/mask/engine.rs`. Large encoded payloads
-- leave a body before it is parsed and come back into it behind the walk (`src/mask/blob.rs`). A
-- streamed answer is taken apart into the texts that grow from event to event by
-- `src/stream/slots.rs`.
--
-- The files.
--   Base, Str, Regex, Json: lists, maps, texts, machine integers and results that carry a state; the
--     operations of `str`; patterns as data with a matcher that tries the alternatives in the order
--     of the engine; the values of `serde_json`.
--   Placeholder: src/mask/placeholder.rs. `new_token`, `safe_label`, `token_suffix` and the like
--     have the names of the source; the six patterns are terms of `Rx`. `Placeholder.Derive` is
--     about the loop of `deterministic_suffix`.
--   Store: src/mask/session.rs. `SessionStore`, `Session` and `RecentEntry` are the structs, with
--     the fields that the modelled operations use. `Store.Prune`, `Store.Recall` and
--     `Store.Resolve` hold `prune_recent`, `recall_token` and `lookup` (here `lookup_token`),
--     `Store.Seed` holds `seed_custom_words` and `warmup_from_events`.
--   Exemptions: src/mask/exemptions.rs, its tables and `leaf_exempt`.
--   Validators: src/mask/validators.rs, one module for each kind of value: `Luhn`, `IdCard`,
--     `Uscc`, `Iban`, `Phone`, `Email`, `Ip`.
--   Detect: src/detect/mod.rs, `detect_protocol` and `is_stream_request`.
--   Stream.Slots: src/stream/slots.rs, `text_slots` and `terminal_prefixes`; `Stream.Slots.Write`
--     is `set_slot`.
--   Stream.Sse: src/stream/sse.rs, `decode_chunk` and the first half of `restore_channel`, which
--     holds back the end of a text that may be the beginning of a token (here `confirm`).
--   Tree: src/mask/tree.rs. `Tree.Mask` and `Tree.Restore` are the walks `mask_tree` and
--     `restore_tree` over a state with the flag `changed` or the counts; `Tree.Literal` writes and
--     reads string literals; `Tree.Duplicates` is `detect_duplicate_keys`; `Tree.Body` is `mask_body`
--     with its three ways to write back, of which `Tree.Body.Splice` holds `splice_mask`, and
--     `Tree.Body.Escaped` is about the escapes of `serialize_compact`; `Tree.Dialog` is
--     `extract_dialog_text`, whose two walks share the loop over an object.
--   Engine: src/mask/engine.rs, `restore_final` with its three passes (`restore_pass`,
--     `restore_pass_escaped`, `restore_pass_loose`), the look-up `lookup_with_db` behind them and the
--     count for a session that is gone. `Engine.Escape` is the JSON escape, and
--     `Engine.Embedded`, `Engine.Matches` and `Engine.Token` are about what it writes and about what the pattern of a token finds.
--   Blob: src/mask/blob.rs, `classify_bytes` and its recognisers; `Blob.Extract` is `extract` and
--     `reinject_checked`.
--   Tests: runs of the code and the theorems at concrete inputs.
--
-- How code corresponds to definitions. A text is the list of its code points; byte lengths and byte
-- slices are those of its UTF-8 encoding. A hash map is an association list, a hash set that is only
-- asked for membership a list. A method that changes its object takes the object and returns the
-- new one. The clock is read once for each call, in whole ticks, and is the argument `now`. A slice
-- or an `unwrap` that panics gives `none`. The store is used by one call at a time. A call that waits
-- for a lock that it holds itself never returns: the field `halted` of the store is set, and what
-- the model does behind that point does not happen.
--
-- Parameters. `Casing` is the Unicode case mapping, of which only the action on ASCII is assumed;
-- `Lossy` is `String::from_utf8_lossy`, of which only the reading of valid UTF-8, without surrogates, is assumed;
-- `Draws` are the draws of the random generator, within their bounds; `Sha256` is the hash, of
-- which only the length is assumed; the hook of a store is any function. `Formats` is what the
-- bodies ask of `serde_json`, of the search for many words and of the decoding of bytes: the print
-- of a tree without floats is read back (`float_roundtrip` is not enabled), and a character outside
-- ASCII is read as its escapes are. `MaskCtx` and `BodyCtx` are the engine as the walk calls it, `RestoreEnv`
-- is a store with a database behind it, and `extract` takes the UTF-8 test and the random numbers.
-- Each of them has an instance among the tests.
--
-- Fuel. `new_token` makes twenty attempts, as the source does. `lookup` unwraps at most five
-- times, as the source does. The loop of `deterministic_suffix` has no bound in the source: its
-- fuel is the length of the search, and a `none` of `seed_custom_words` stands for fuel that was not enough. `show_nat n` has `n` steps for fewer than `n` digits behind
-- the last. A repetition in a pattern consumes a character in each round, and the length of the
-- text is enough. The readers of string literals, of duplicate keys, of tokens and of payloads consume
-- a character or a byte in each step, and their fuel is the length of the input. The walks over
-- a tree are structural; their limit of 24 levels is the one of the source.
--
-- Not modelled. IPv6, connection strings and previews of the validators; `jwt_ok` and
-- `ssh_pubkey_ok`, which call a base64 decoder; the rules, and `mask` of the engine, which is a
-- parameter of the walk; the framing of streams and the flushing of held
-- texts; command blocking; the audit; storage, configuration, HTTP and the desktop shell.
pub mod Base
pub mod Str
pub mod Regex
pub mod Placeholder
pub mod Store
pub mod Validators
pub mod Exemptions
pub mod Json
pub mod Blob
pub mod Engine
pub mod Tree
pub mod Stream
pub mod Detect
mod Tests
