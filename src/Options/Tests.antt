-- ===== src/Options/Tests.antt =====
-- A number and a switch.
use cc_utils.Base.{ℕ, true, arith, ◌≡◌, ◌++◌, List, [], ◌∷◌, replicate}
use cc_utils.Base.Outcome.{ok}
use cc_utils.Options.{CliOption, opt_int, opt_bool, optstring}
use cc_utils.Options.Room.{optstring-described}

abbrev two_options : List CliOption
two_options = opt_int b'n' (b'n' ∷ []) 100 [] ∷ opt_bool b'v' (b'v' ∷ []) 200 [] ∷ []

optstring-described_example :
    (k : ℕ) × (optstring true two_options
      ≡ ok (record {
        chars = (b'h' ∷ b'n' ∷ b':' ∷ b'v' ∷ b':' ∷ b':' ∷ []) ++ (0 ∷ replicate k 0);
        idx = 6;
      }))
optstring-described_example =
    optstring-described two_options ((omega arith, omega arith), ((omega arith, omega arith), tt))
      (omega arith)
