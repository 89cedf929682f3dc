-- ===== src/Json.antt =====
-- The JSON library: src/json_value.c, src/json_parse.c and src/json_write.c.
pub mod Value
pub mod State
pub mod Strings
pub mod Numbers
pub mod Parser
pub mod Feed
pub mod Writer
pub mod Steps
pub mod Attach
pub mod Escapes
pub mod Grammar
pub mod Walk
pub mod Text
pub mod Starts
pub mod Numerals
pub mod Brackets
pub mod Members
pub mod Input
pub mod RoundTrip
pub mod Errors
pub mod Bounds
pub mod Lookup
pub mod Calls
pub mod Containers
pub mod Output
