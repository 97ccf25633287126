-- ===== src/Cli/Printed.antt =====
-- What a command printed is what is sent (src/cli/cli_server.c).
use cc_utils.Base.{
  ℕ, ◌+◌, ◌*◌, ◌^◌, ◌≤◌, ◌<◌, ◌≡◌, ap, ◌∙◌, sym, true, false, ◌||◌, [], ◌∷◌, ◌++◌, ltb, leb, ◌==◌,
  length, length-append, take, take-append, arith, Bool-cases, ◌⊎◌, inl, inr,
}
use cc_utils.Base.Outcome.{ok}
use cc_utils.Base.Bytes.{Bytes, take-write_bytes}
use cc_utils.Binlog.Buffer.{Allocator, int32_size}
use cc_utils.Binlog.Laws.Growth.{Succeeds, take-take}
use cc_utils.Cli.Output.{CmdPrint, cdp_grow, cdp_print, cdp_output}

-- The buffer has its size, at least 4096, and begins with the text printed so far and a 0.
pub record Printed (cdp : CmdPrint) (text : Bytes) : Type 0 where
  pub sized : length cdp.buf ≡ cdp.buf_size
  pub least : 4096 ≤ cdp.buf_size
  pub ends : cdp.pos ≡ length text
  pub inside : cdp.pos < cdp.buf_size
  pub holds : take cdp.pos cdp.buf ≡ text

-- A block that begins with the old one begins with every part of it.
take-shorter : (n : ℕ) (a b : Bytes) → n ≤ length a → take (length a) b ≡ a → take n b ≡ take n a
take-shorter n a b h e = sym (take-take n (length a) b h) ∙ ap (take n) e

module _ (mem : Allocator) (succeeds : Succeeds mem) where
  grow-Printed :
      (cdp : CmdPrint) (text : Bytes) (n : ℕ)
      → Printed cdp text
      → n < 1024
      → cdp.buf_size < 2 ^ 30
      → (cdp' : CmdPrint) × (cdp_grow mem cdp n ≡ ok cdp')
        × Printed cdp' text
        × (cdp.pos + n < cdp'.buf_size)
        × (cdp'.buf_size ≤ cdp.buf_size ⊎ cdp'.buf_size ≤ 2 * (n + cdp.pos))
  unfolding cdp_grow
  grow-Printed cdp text n h short small = elim (Bool-cases (leb cdp.buf_size (n + cdp.pos))) [
    | inr fits ↦ (cdp, rw fits, h, ground arith, inl (omega arith))
    | inl grow ↦
        let (buf, e) = succeeds.realloc_some cdp.buf (cdp.buf_size * 2) in
        let counted : int32_size (cdp.buf_size * 2) ≡ ok (cdp.buf_size * 2) = ground arith in
        let kept : take (length cdp.buf) buf ≡ cdp.buf =
          mem.realloc_keeps cdp.buf (cdp.buf_size * 2) buf (omega (arith, h.sized)) e in
        (
          record { buf = buf; buf_size = cdp.buf_size * 2; pos = cdp.pos },
          rw (grow, counted, e),
          record {
            sized = mem.realloc_size cdp.buf (cdp.buf_size * 2) buf e;
            least = omega (arith, h.least);
            ends = h.ends;
            inside = omega (arith, h.inside);
            holds =
                take-shorter cdp.pos cdp.buf buf (omega (arith, h.sized, h.inside)) kept ∙ h.holds;
          },
          omega (arith, h.inside, h.least),
          inr (ground (arith, grow)),
        )
  ]

  pub print-Printed :
      (cdp : CmdPrint) (before text : Bytes)
      → Printed cdp before
      → 0 < length text
      → length text < 1024
      → cdp.buf_size < 2 ^ 30
      → (cdp' : CmdPrint) × (cdp_print mem cdp text ≡ ok cdp')
        × Printed cdp' (before ++ text)
        × (take (cdp'.pos + 1) (cdp_output cdp') ≡ before ++ text ++ (0 ∷ []))
        × (cdp'.buf_size ≤ cdp.buf_size ⊎ cdp'.buf_size ≤ 2 * cdp'.pos)
  unfolding cdp_print cdp_output
  print-Printed cdp before text h some_text short small =
      let (cdp₁, e₁, h₁, room, modest) = grow-Printed cdp before (length text) h short small in
      let (buf₂, e₂, l₂, t₂) =
        take-write_bytes cdp₁.buf cdp₁.pos text (omega (arith, h₁.sized, h₁.ends, h.ends)) in
      let pos : ℕ = cdp₁.pos + length text in
      let (buf₃, e₃, l₃, t₃) =
        take-write_bytes buf₂ pos (0 ∷ []) (omega (arith, l₂, h₁.sized, h₁.ends, h.ends)) in
      let front : take pos buf₂ ≡ before ++ text = t₂ ∙ ap (λ x. x ++ text) h₁.holds in
      let taken : (length text == 0 || ltb 1024 (length text + 1)) ≡ false = ground arith in
      let sent : ltb 0 pos ≡ true = ground arith in
      let whole : take (pos + 1) buf₃ ≡ before ++ text ++ (0 ∷ []) =
        t₃ ∙ ap (λ x. x ++ (0 ∷ [])) front in
      (
        record cdp₁ { buf = buf₃; pos = pos },
        rw (taken, e₁, e₂, e₃),
        record {
          sized = l₃ ∙ l₂ ∙ h₁.sized;
          least = h₁.least;
          ends = omega (arith, h₁.ends, length-append before text);
          inside = omega (arith, room, h₁.ends, h.ends);
          holds =
              sym (take-take pos (pos + 1) buf₃ (omega arith))
              ∙ ap (take pos) whole
              ∙ take-append (before ++ text) (0 ∷ []) pos
                  (omega (arith, h₁.ends, length-append before text));
        },
        rw sent whole,
        ground (arith, modest, h₁.ends, h.ends),
      )

  -- A text of 1 to 1023 characters is put behind what was printed before, without a fault, whatever
  -- room there was, and a 0 is put behind it. No allocation fails, and the buffer is smaller than 1
  -- GB before.
  pub cdp_print-Printed :
      (cdp : CmdPrint) (before text : Bytes)
      → Printed cdp before
      → 0 < length text
      → length text < 1024
      → cdp.buf_size < 2 ^ 30
      → (cdp' : CmdPrint) × (cdp_print mem cdp text ≡ ok cdp')
        × Printed cdp' (before ++ text)
        × (take (cdp'.pos + 1) (cdp_output cdp') ≡ before ++ text ++ (0 ∷ []))
  cdp_print-Printed cdp before text h some_text short small =
      let (cdp', e, printed, sent, _) = print-Printed cdp before text h some_text short small in
      (cdp', e, printed, sent)
