-- ===== src/Cli/Output.antt =====
-- The text that a command prints, `cmdprint_t` of src/cli/cli_server.c. The locks are left out: one
-- thread runs the commands.
use cc_utils.Base.{ℕ, ◌+◌, ◌*◌, ◌||◌, [], ◌∷◌, ltb, leb, ◌==◌, if◌then◌else◌, length}
use cc_utils.Base.Outcome.{Outcome, ok, ◌>>=◌}
use cc_utils.Base.Bytes.{Bytes, write_bytes}
use cc_utils.Binlog.Buffer.{Allocator, checked_block, int32_size}

-- `cmdprint_t` with a buffer that is not NULL.
pub record CmdPrint : Type 0 where
  pub buf : Bytes
  pub buf_size : ℕ
  pub pos : ℕ

module _ (mem : Allocator) where
  unfoldable pub cdp_init : Outcome CmdPrint
  cdp_init = do
    buf ← checked_block (mem.malloc 4096)
    ok (record { buf = buf; buf_size = 4096; pos = 0 })

  unfoldable pub cdp_reinit : CmdPrint → Outcome CmdPrint
  cdp_reinit cdp = if ltb 10240 cdp.buf_size then cdp_init else ok (record cdp { pos = 0 })

  -- More room where the text and its terminator do not fit.
  unfoldable pub cdp_grow : CmdPrint → ℕ → Outcome CmdPrint
  cdp_grow cdp off =
      if leb cdp.buf_size (off + cdp.pos)
      then (do
        n ← int32_size (cdp.buf_size * 2)
        buf ← checked_block (mem.realloc cdp.buf n)
        ok (record cdp { buf = buf; buf_size = n }))
      else ok cdp

  -- `text` is what vsnprintf makes of the format and the arguments; a text that is empty, or that
  -- does not fit the array of 1024 bytes, is left out.
  unfoldable pub cdp_print : CmdPrint → Bytes → Outcome CmdPrint
  cdp_print cdp text = if length text == 0 || ltb 1024 (length text + 1) then ok cdp else do
    cdp ← cdp_grow cdp (length text)
    buf ← write_bytes cdp.buf cdp.pos text
    let pos = cdp.pos + length text
    buf ← write_bytes buf pos (0 ∷ [])
    ok (record cdp { buf = buf; pos = pos })

-- The buffer is given back, and its address left where it is.
unfoldable pub cdp_destroy : CmdPrint → CmdPrint
cdp_destroy cdp = record { buf = []; buf_size = 0; pos = 0 }

-- What is sent: the buffer's text, or "success" if nothing was printed.
abbrev pub success : Bytes
success = b's' ∷ b'u' ∷ b'c' ∷ b'c' ∷ b'e' ∷ b's' ∷ b's' ∷ []

unfoldable pub cdp_output : CmdPrint → Bytes
cdp_output cdp = if ltb 0 cdp.pos then cdp.buf else success
