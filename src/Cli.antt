-- ===== src/Cli.antt =====
-- The command line server, src/cli/cli_server.c and cli_internal.h: the message that carries a
-- command (Message), the table of commands (Table), the text that a command prints (Output), the bytes
-- of a connection (Io), a connection (Serve), the server from its start to its end (Lifetime).
pub mod Message
pub mod Layout
pub mod RoundTrip
pub mod Request
pub mod Table
pub mod Registered
pub mod Output
pub mod Io
pub mod Calls
pub mod Sends
pub mod Transfer
pub mod Serve
pub mod Served
pub mod Loopback
pub mod Lifetime
pub mod Unheard
pub mod Exit
pub mod Printed
pub mod Builtin
pub mod Listing
pub mod Helped
mod Tests
use cc_utils.Base.{ℕ}

-- COMMAND_MAX_LEN
abbrev pub command_max_len : ℕ
command_max_len = 32
