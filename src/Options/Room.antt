-- ===== src/Options/Room.antt =====
-- The text that parse_options of src/cli/options.c makes for getopt_long fits its array.
use cc_utils.Base.{
  All, ◌<◌, ◌%◌, ◌^◌, ltb, ℕ, suc, ◌+◌, ◌-◌, ◌*◌, ◌≤◌, ◌≡◌, refl, ap, ap₂, sym, ◌∙◌, List, [], ◌∷◌,
  ◌++◌, append_assoc, append-nil, leb, length, replicate, drop, arith, length-append,
  length-replicate, take-append, drop-append, true,
}
use cc_utils.Base.Outcome.{ok, ◌>>=◌}
use cc_utils.Base.Bytes.{Bytes, write_bytes}
use cc_utils.Options.{
  OptionFlag, no_arg, req_arg, opt_arg, CliOption, OptString, add_char, add_colons, add_option,
  add_options, optstring,
}

-- getopt_long's description of an option: its character, and a colon for a required argument, two for
-- one that may be left out.
abbrev pub colons : OptionFlag → Bytes
colons no_arg = []
colons req_arg = b':' ∷ []
colons opt_arg = b':' ∷ b':' ∷ []

abbrev pub described : List CliOption → Bytes
described [] = []
described (o ∷ copts) = o.short_name ∷ (colons o.flag ++ described copts)

-- The options' characters are none that ends the text, and fit a `char`.
abbrev pub IsChar : CliOption → Type 0
IsChar o = (0 < o.short_name) × (o.short_name < 256)

-- Characters with so many zeros behind them.
abbrev filled : Bytes → ℕ → OptString
filled b k = record { chars = b ++ replicate k 0; idx = length b }

filled-ext : (b b' : Bytes) (k k' : ℕ) → b ≡ b' → k ≡ k' → filled b k ≡ filled b' k'
filled-ext b b' k k' e f = ap₂ filled e f

add_char-filled :
    (b : Bytes) (k c : ℕ) → add_char (filled b (suc k)) c ≡ ok (filled (b ++ (c ∷ [])) k)
unfolding add_char write_bytes
add_char-filled b k c =
    let room : leb (length b + 1) (length (b ++ replicate (suc k) 0)) ≡ true =
      ground (arith, length-append b (replicate (suc k) 0), length-replicate {A = ℕ} (suc k) 0) in
    let behind : drop (length b + 1) (b ++ replicate (suc k) 0) ≡ replicate k 0 =
      ap (drop (length b + 1)) (sym (append_assoc b (0 ∷ []) (replicate k 0)))
      ∙ drop-append (b ++ (0 ∷ [])) (replicate k 0) (length b + 1)
          (sym (length-append b (0 ∷ []))) in
    rw (room, take-append b (replicate (suc k) 0) (length b) refl, behind)
      (ap (λ i. ok (record { chars = (b ++ (c ∷ [])) ++ replicate k 0; idx = i }))
        (sym (length-append b (c ∷ []))))

add_colons-filled :
    (b : Bytes) (k : ℕ) (flag : OptionFlag)
    → add_colons (filled b (k + 2)) flag
      ≡ ok (filled (b ++ colons flag) (k + 2 - length (colons flag)))
unfolding add_colons
add_colons-filled b k no_arg =
    ap ok (filled-ext b (b ++ []) (k + 2) (k + 2 - 0) (sym (append-nil b)) (omega arith))
add_colons-filled b k req_arg =
    ap (λ k. add_char (filled b k) b':') {x = k + 2} {y = suc (k + 1)} (omega arith)
    ∙ add_char-filled b (k + 1) b':'
    ∙ ap (λ k. ok (filled (b ++ (b':' ∷ [])) k)) {x = k + 1} {y = k + 2 - 1} (omega arith)
add_colons-filled b k opt_arg =
    ap (λ k. add_char (filled b k) b':' >>= λ s. add_char s b':') {x = k + 2} {y = suc (suc k)}
      (omega arith)
    ∙ ap (λ o. o >>= λ s. add_char s b':') (add_char-filled b (suc k) b':')
    ∙ add_char-filled (b ++ (b':' ∷ [])) k b':'
    ∙ ap ok (
        filled-ext ((b ++ (b':' ∷ [])) ++ (b':' ∷ [])) (b ++ (b':' ∷ b':' ∷ [])) k (k + 2 - 2)
          (append_assoc b (b':' ∷ []) (b':' ∷ [])) (omega arith))

few_colons : (flag : OptionFlag) → length (colons flag) ≤ 2
few_colons no_arg = omega arith
few_colons req_arg = omega arith
few_colons opt_arg = omega arith

add_options-filled :
    (copts : List CliOption) (b : Bytes) (k : ℕ)
    → All IsChar copts
    → length copts * 3 ≤ k
    → (k' : ℕ) × (add_options (filled b k) copts ≡ ok (filled (b ++ described copts) k'))
      × (k ≤ k' + length copts * 3)
unfolding add_options add_option
add_options-filled [] b k all h = (k, ap (λ b. ok (filled b k)) (sym (append-nil b)), omega arith)
add_options-filled (o ∷ copts) b k (is, all) h =
    let rest = k - 3 in
    let few = few_colons o.flag in
    let b' = b ++ (o.short_name ∷ []) in
    let left = rest + 2 - length (colons o.flag) in
    let (k', e, enough) = add_options-filled copts (b' ++ colons o.flag) left all (omega arith) in
    let char : o.short_name % 256 ≡ o.short_name = omega (arith, is.1) in
    (
      k',
      ap (λ c. add_char (filled b k) c >>= (λ s. add_colons s o.flag) >>= λ s. add_options s copts)
            char
          ∙ ap
              (λ k. add_char (filled b k) o.short_name >>= (λ s. add_colons s o.flag) >>= λ s.
                add_options s copts)
              {x = k} {y = suc (rest + 2)} (omega arith)
          ∙ ap (λ t. t >>= (λ s. add_colons s o.flag) >>= λ s. add_options s copts)
              (add_char-filled b (rest + 2) o.short_name)
          ∙ ap (λ t. t >>= λ s. add_options s copts) (add_colons-filled b' rest o.flag)
          ∙ e
          ∙ ap (λ b. ok (filled b k'))
              (append_assoc b' (colons o.flag) (described copts)
                ∙ append_assoc b (o.short_name ∷ []) (colons o.flag ++ described copts)),
      omega arith,
    )

-- Where calloc() succeeds, the options' characters are 1 to 255, and the size of the array is an `int`, the
-- text stays inside of its array of (optnum + 1) * 3 + 1 characters: it is made without a fault, describes
-- help and the options in their order as getopt_long takes it, and has a terminator behind it.
pub optstring-described :
    (copts : List CliOption)
    → All IsChar copts
    → (length copts + 1) * 3 + 1 < 2 ^ 31
    → (k : ℕ) × (optstring true copts
        ≡ ok (record {
          chars = (b'h' ∷ described copts) ++ (0 ∷ replicate k 0);
          idx = length (b'h' ∷ described copts);
        }))
unfolding optstring
optstring-described copts all small =
    let n = length copts * 3 + 3 in
    let (k, e, enough) = add_options-filled copts (b'h' ∷ []) n all (omega arith) in
    let fits : ltb ((length copts + 1) * 3 + 1) (2 ^ 31) ≡ true = ground (arith, small) in
    let made =
      ap (λ k. add_char (filled [] k) b'h' >>= λ s. add_options s copts)
        {x = (length copts + 1) * 3 + 1} {y = suc n} (omega arith)
      ∙ ap (λ t. t >>= λ s. add_options s copts) (add_char-filled [] n b'h')
      ∙ e
      ∙ ap (λ k. ok (filled (b'h' ∷ described copts) k)) {x = k} {y = suc (k - 1)} (omega arith) in
    (k - 1, rw fits made)
