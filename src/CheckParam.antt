-- ===== src/CheckParam.antt =====
-- check_addr_valid of src/check_param_list.c: the numbers of the parameters that are NULL are printed.
use cc_utils.Base.{
  ℕ, ◌+◌, ◌-◌, Bool, true, List, [], ◌∷◌, ◌++◌, ltb, ◌==◌, if◌then◌else◌, length, take,
}
use cc_utils.Base.Outcome.{Outcome, ok, fault, ◌>>=◌}
use cc_utils.Base.Bytes.{Bytes}

-- MAX_BUF_SIZE
abbrev pub max_buf_size : ℕ
max_buf_size = 256

-- The text in the buffer, and `offset`, which also counts the characters that had no room.
pub record Report : Type 0 where
  pub text : Bytes
  pub offset : ℕ

-- snprintf() at `offset`: once that is behind the end of the buffer, the room that is left is a negative
-- number, which is converted to a size, and the characters go behind the buffer.
unfoldable pub report : Report → Bytes → Outcome Report
report r more =
    if ltb max_buf_size r.offset
    then fault
    else ok (record {
      text = take (max_buf_size - 1) (r.text ++ more);
      offset = r.offset + length more;
    })

-- "param%d is invalid"; `shown` is what snprintf makes of "%d".
abbrev pub invalid_text : (ℕ → Bytes) → ℕ → Bytes
invalid_text shown i =
    b'p' ∷ b'a' ∷ b'r' ∷ b'a' ∷ b'm' ∷ shown i
    ++ (b' ' ∷ b'i' ∷ b's' ∷ b' ' ∷ b'i' ∷ b'n' ∷ b'v' ∷ b'a' ∷ b'l' ∷ b'i' ∷ b'd' ∷ [])

abbrev pub report_param : (ℕ → Bytes) → ℕ → Report → Outcome Report
report_param shown i r =
    if i == 0
    then report r (invalid_text shown i)
    else report r (b',' ∷ b' ' ∷ invalid_text shown i)

-- The parameters from the one with the number `i` on.
unfoldable pub report_loop : (ℕ → Bytes) → ℕ → List ℕ → Report → Outcome Report
report_loop shown i [] r = ok r
report_loop shown i (addr ∷ addrs) r =
    let reported = report_param shown i r >>= λ r. report_loop shown (i + 1) addrs r in
    let passed = report_loop shown (i + 1) addrs r in if addr == 0 then reported else passed

-- What is returned, whatever the parameters are, and the line that is printed. `title` is the text with
-- the function and the line.
unfoldable pub check_addr_valid : (ℕ → Bytes) → Bytes → List ℕ → Outcome (Bool × Bytes)
check_addr_valid shown title addrs = do
  r ← report (record { text = []; offset = 0 }) title
  r ← report_loop shown 0 addrs r
  ok (true, r.text)
