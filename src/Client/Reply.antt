-- ===== src/Client/Reply.antt =====
-- What the client of src/cli/cli_client.c reads of a reply.
use cc_utils.Base.{
  refl, subst, Bool-cases, inl, inr, Option, none, some, ◌==◌, ℕ, zero, suc, ◌+◌, ◌<◌, ◌≡◌, ap, sym,
  ◌∙◌, false, [], ◌∷◌, ◌++◌, append_assoc, append-nil, leb, length, drop, arith, length-append,
}
use cc_utils.Base.Outcome.{ok}
use cc_utils.Base.Bytes.{Bytes, IsText, c_string}
use cc_utils.Cli.Io.{Streams}
use cc_utils.Cli.Transfer.{safe_read-Streams}
use cc_utils.Client.{Desktop, printed, reply_round, reply_loop}

printed-IsText : (b : Bytes) → IsText b → printed b ≡ b
printed-IsText [] h = refl
printed-IsText (x ∷ b) (other, h) = rw (other, printed-IsText b h) refl

some_injective : {a b : Bytes} → some a ≡ some b → a ≡ b
some_injective h = cc

pub c_string-IsText : (b text : Bytes) → c_string b ≡ some text → IsText text
c_string-IsText [] text h = absurd cc
c_string-IsText (x ∷ b) text h = elim (Bool-cases (x == 0)) [
  | inl zero_byte ↦ subst IsText (some_injective (rw zero_byte at h)) tt
  | inr other ↦ behind other (c_string b) refl (rw other at h) (λ s e. c_string-IsText b s e)
]
  where
    behind :
        (x == 0) ≡ false
        → (o : Option Bytes) → c_string b ≡ o
        → elim o [ none ↦ none | some s ↦ some (x ∷ s) ] ≡ some text
        → ((s : Bytes) → c_string b ≡ some s → IsText s)
        → IsText text
    behind other none e h ih = absurd cc
    behind other (some s) e h ih = subst IsText (some_injective h) (other, ih s e)

module _ (os : Desktop) (st : Streams os.net) where
  read_on :
      (fuel stale : ℕ) (s : os.net.State) (fd c : ℕ) (buf reply : Bytes)
      → st.pending s fd ≡ reply
      → length (c ∷ buf) + length reply < 1024
      → length reply + st.interrupts s + 1 < fuel
      → IsText (c ∷ buf ++ reply)
      → (s' : os.net.State) × (reply_loop os fuel stale s fd (c ∷ buf) ≡ ok (c ∷ buf ++ reply, s'))
        × (st.pending s' fd ≡ [])
  unfolding reply_loop reply_round
  read_on zero stale s fd c buf reply e fits enough is = absurd (omega arith)
  read_on (suc fuel) stale s fd c buf [] e fits enough is =
      let (s', got, left, _, _) = safe_read-Streams os.net st (suc fuel) s fd 1 (omega arith) in
      let whole : printed (c ∷ buf) ≡ c ∷ buf ++ [] =
        printed-IsText (c ∷ buf) (subst IsText (append-nil (c ∷ buf)) is)
        ∙ sym (append-nil (c ∷ buf)) in
      (s', rw (got, e) (ap (λ b. ok (b, s')) whole), left ∙ ap (drop 1) e)
  read_on (suc fuel) stale s fd c buf (x ∷ reply) e fits enough is =
      let (s', got, left, _, fewer) = safe_read-Streams os.net st (suc fuel) s fd 1 (omega arith) in
      let room : leb 1024 (length (c ∷ buf) + 1) ≡ false = ground (arith, fits) in
      let grown = length-append buf (x ∷ []) in
      let (s'', rest, over) =
        read_on fuel stale s' fd c (buf ++ (x ∷ [])) reply (left ∙ ap (drop 1) e) (omega arith)
          (omega arith) (subst IsText (sym (append_assoc (c ∷ buf) (x ∷ []) reply)) is) in
      (
        s'',
        rw (got, e, room) (rest ∙ ap (λ b. ok (c ∷ b, s'')) (append_assoc buf (x ∷ []) reply)),
        over,
      )

  -- On a connection whose calls fail only by a signal, the client prints a reply of 1 to 1023
  -- characters, none of them 0, as it was sent, once the server closes the connection, and takes all of
  -- it.
  pub reply_loop-reply :
      (fuel stale : ℕ) (s : os.net.State) (fd : ℕ) (reply : Bytes)
      → st.pending s fd ≡ reply
      → 0 < length reply
      → length reply < 1024
      → length reply + st.interrupts s + 1 < fuel
      → IsText reply
      → (s' : os.net.State) × (reply_loop os fuel stale s fd [] ≡ ok (reply, s'))
        × (st.pending s' fd ≡ [])
  unfolding reply_loop reply_round
  reply_loop-reply fuel stale s fd [] e some_bytes fits enough is = absurd (omega arith)
  reply_loop-reply zero stale s fd (x ∷ reply) e some_bytes fits enough is = absurd (omega arith)
  reply_loop-reply (suc fuel) stale s fd (x ∷ reply) e some_bytes fits enough is =
      let (s', got, left, _, fewer) = safe_read-Streams os.net st (suc fuel) s fd 1 (omega arith) in
      let (s'', rest, over) =
        read_on fuel stale s' fd x [] reply (left ∙ ap (drop 1) e) (omega arith) (omega arith) is in
      (s'', rw (got, e) rest, over)
