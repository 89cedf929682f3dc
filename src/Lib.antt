-- ===== src/Lib.antt =====
-- oi.c is a coding agent for the terminal, in C: it sends a conversation to a language model over HTTP,
-- shows the streamed answer, and runs the tools that the model asks for. This library models the parts
-- that its own logic rests on: how bytes from the network and from the keyboard become text, events and
-- lines, and the stores behind them.
--
-- The path of the model's answer. src/llm_http.c splits the response into a head and body bytes,
-- src/llm_sse.c splits the body into the payloads of `data:` lines, src/cli_utf8_stream.c turns text into
-- well-formed UTF-8, and src/cli_render_sanitize.c takes terminal control sequences out of it; both
-- filters append to a buffer of src/cli_bytebuf.c. The path of the user's input. src/cli_input.c decodes
-- the terminal's bytes into events, src/cli_editor.c edits a line of text, src/cli_input_history.c keeps
-- the lines that were submitted, src/cli_commands.c knows the slash commands, src/cli_prompt_state.c applies the
-- events to these three, and src/cli_selector.c chooses among options. src/cli_utf8.c serves both.
-- src/config.c resolves the settings.
-- The payloads are JSON documents, read by src/json_parse.c into the values of src/json_value.c; requests and
-- records are written by src/json_write.c.
--
-- Files:
--   Prelude       Boolean tests, lists and byte strings over the native numbers
--   Status        include/oi/status.h; `Result` is a call that writes an out parameter on OI_OK only
--   Utf8          src/cli_utf8.c; Utf8/Encode is `emit_utf8` of src/json_parse.c, the independent
--                 encoder that the other files of Utf8 compare with
--   Bytebuf       src/cli_bytebuf.c
--   Pump          the loop that src/cli_utf8_stream.c and src/cli_render_sanitize.c share in form, over
--                 a machine with a step for one byte
--   Utf8Stream    src/cli_utf8_stream.c, as such a machine
--   Sanitize      src/cli_render_sanitize.c, as such a machine
--   Editor        src/cli_editor.c; Editor/Zipper is the abstract view, characters with a cursor
--   Sse           src/llm_sse.c
--   Http          src/llm_http.c; Http/Digits are its two loops over digits
--   InputHistory  src/cli_input_history.c
--   Input         src/cli_input.c
--   Selector      src/cli_selector.c
--   Arena         src/arena.c
--   ToolRegistry  src/tool_registry.c
--   Json          the JSON library. Json/Value is src/json_value.c; Json/State, Strings, Numbers and Parser are
--                 src/json_parse.c; Json/Writer is src/json_write.c; Json/Walk has the walk over a value
--                 of test/fuzz/fuzz_json.c, and `render`, the text that a value is meant to have; Json/Grammar has the numbers of
--                 the JSON grammar
--   Commands      src/cli_commands.c
--   Prompt        src/cli_prompt_state.c, over Commands, Editor, Input and InputHistory
--   Config        src/config.c
--   Tests         the theorems applied to concrete inputs
--
-- A C function keeps its name without its prefix (`oi_cli_editor_insert` is `Editor.insert`). A struct is
-- a record, a pointer with a length is the list of the bytes that it shows, and a call is a function from
-- the old state to its status and the new state. A double is an element of any type, of which the JSON
-- library uses only what `strtod`, `isfinite` and "%.17g" do: they are parameters.
--
-- Parameters. `grants n` tells whether the allocator gives n bytes, for malloc, realloc and strdup alike.
-- The JSON parser has two, `grants heap` for malloc and realloc, and `grants arena` for `oi_arena_alloc`,
-- which is there a test of the size that is asked for; Tests/Json puts the arena of src/arena.c in its place.
-- A callback is what it may do to the caller: `destroys` tells, from what the parser has delivered so far,
-- whether the callback destroys the parser in that call; what it was given is kept in the state.
--
-- Loops. The loop of the two filters and the loop of the HTTP feed may look at a byte more than once, so
-- they run on fuel: two rounds a byte and one more, three rounds a byte and three more; the loop of the JSON
-- feed has two rounds a byte. The growth of a
-- buffer doubles its capacity and runs on the required size as fuel. Theorems say that each is enough. All
-- other loops are structural recursion.
--
-- Not modelled. NULL-pointer guards; the bytes of an allocation behind its contents; sums of sizes that
-- would overflow only with objects close to SIZE_MAX, where the code does not test them. Outside the model
-- are the dispatch of slash commands, the drawing of the prompt, the Markdown renderer and the conversation
-- history; and sockets, processes, files, the event loop and the terminal itself,
-- whose code is calls of the system.
pub mod Prelude
pub mod Status
pub mod Utf8
pub mod Bytebuf
pub mod Pump
pub mod Utf8Stream
pub mod Sanitize
pub mod Editor
pub mod Sse
pub mod Http
pub mod InputHistory
pub mod Input
pub mod Selector
pub mod Arena
pub mod ToolRegistry
pub mod Json
pub mod Commands
pub mod Prompt
pub mod Config
pub mod Tests
