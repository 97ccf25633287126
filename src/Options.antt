-- ===== src/Options.antt =====
-- The options of a command, src/cli/options.c and include/cli/options.h.
pub mod Room
mod Tests
use cc_utils.Base.{
  ℕ, zero, suc, ◌+◌, ◌-◌, ◌*◌, ◌%◌, ◌^◌, Bool, true, false, Option, none, some, List, [], ◌∷◌, ◌++◌,
  ltb, ◌==◌, if◌then◌else◌, length, replicate, take,
}
use cc_utils.Base.Outcome.{Outcome, ok, fault, out_of_fuel, ◌>>=◌, ◌>>◌, assert}
use cc_utils.Base.Int.{ℤ, pos, negsuc}
use cc_utils.Base.Bytes.{Bytes, write_bytes}
use cc_utils.Numbers.{to_int}

-- `enum option_flag`, with the numbers of getopt's no_argument, required_argument, optional_argument
pub data OptionFlag : Type 0 where
  no_arg : OptionFlag
  req_arg : OptionFlag
  opt_arg : OptionFlag

pub data OptionType : Type 0 where
  int : OptionType
  long : OptionType
  float : OptionType
  bool : OptionType
  double : OptionType
  string32 : OptionType
  string64 : OptionType
  callback : OptionType

-- `value` is an address, and `none` is NULL; a callback is known by its address. `short_name` is an `int`
-- that is not negative.
pub record CliOption : Type 0 where
  pub kind : OptionType
  pub flag : OptionFlag
  pub short_name : ℕ
  pub long_name : Bytes
  pub value : ℕ
  pub argh : Bytes
  pub help : Bytes
  pub function : Option ℕ

-- What the macros OPT_INT, OPT_LONG, OPT_STRING32, OPT_STRING64 and OPT_DOUBLE share.
abbrev pub with_argument : OptionType → ℕ → Bytes → ℕ → Bytes → CliOption
with_argument kind s l v h = record {
  kind = kind;
  flag = req_arg;
  short_name = s;
  long_name = l;
  value = v;
  argh = h;
  help = h;
  function = none;
}

abbrev pub opt_int : ℕ → Bytes → ℕ → Bytes → CliOption
opt_int = with_argument int

abbrev pub opt_long : ℕ → Bytes → ℕ → Bytes → CliOption
opt_long = with_argument long

abbrev pub opt_bool : ℕ → Bytes → ℕ → Bytes → CliOption
opt_bool s l v h = record (with_argument bool s l v h) { flag = opt_arg }

abbrev pub opt_string32 : ℕ → Bytes → ℕ → Bytes → CliOption
opt_string32 = with_argument string32

abbrev pub opt_string64 : ℕ → Bytes → ℕ → Bytes → CliOption
opt_string64 = with_argument string64

abbrev pub opt_callback : ℕ → Bytes → ℕ → Bytes → ℕ → CliOption
opt_callback s l v h cb = record (with_argument callback s l v h) { function = some cb }

abbrev pub opt_double : ℕ → Bytes → ℕ → Bytes → CliOption
opt_double = with_argument double

-- `struct option` of getopt.h, without `flag`, which is NULL
pub record LongOption : Type 0 where
  pub name : Bytes
  pub has_arg : OptionFlag
  pub val : ℕ

abbrev pub help_option : LongOption
help_option = record { name = b'h' ∷ b'e' ∷ b'l' ∷ b'p' ∷ []; has_arg = no_arg; val = b'h' }

unfoldable pub long_options : List CliOption → List LongOption
long_options [] = []
long_options (o ∷ copts) =
    record { name = o.long_name; has_arg = o.flag; val = o.short_name } ∷ long_options copts

-- `optstring` and `optstring_idx`
pub record OptString : Type 0 where
  pub chars : Bytes
  pub idx : ℕ

-- optstring[optstring_idx++] = c
unfoldable pub add_char : OptString → ℕ → Outcome OptString
add_char s c = do
  chars ← write_bytes s.chars s.idx (c ∷ [])
  ok (record { chars = chars; idx = s.idx + 1 })

-- The colons behind an option's character.
unfoldable pub add_colons : OptString → OptionFlag → Outcome OptString
add_colons s no_arg = ok s
add_colons s req_arg = add_char s b':'
add_colons s opt_arg = add_char s b':' >>= λ s. add_char s b':'

-- The `int` is stored in a `char`.
unfoldable pub add_option : OptString → CliOption → Outcome OptString
add_option s o = add_char s (o.short_name % 256) >>= λ s. add_colons s o.flag

unfoldable pub add_options : OptString → List CliOption → Outcome OptString
add_options s [] = ok s
add_options s (o ∷ copts) = add_option s o >>= λ s. add_options s copts

-- The array has 3 characters for each option and for help, and one for the terminator: their number is
-- an `int`, whose overflow is undefined. calloc(): `false` is NULL, through which the code goes.
unfoldable pub optstring : Bool → List CliOption → Outcome OptString
optstring false copts = fault
optstring true copts = do
  assert (ltb ((length copts + 1) * 3 + 1) (2 ^ 31))
  s ← add_char (record { chars = replicate ((length copts + 1) * 3 + 1) 0; idx = 0 }) b'h'
  add_options s copts

unfoldable pub find_option : List CliOption → ℕ → Option CliOption
find_option [] c = none
find_option (o ∷ copts) c =
    let rest = find_option copts c in if o.short_name == c then some o else rest

-- The lines of print_help: each option's character, name and help.
unfoldable pub print_help : List CliOption → List (ℕ × Bytes × Bytes)
print_help [] = []
print_help (o ∷ copts) = (o.short_name, o.long_name, o.help) ∷ print_help copts

-- `(int32_t) n`
unfoldable pub to_int32 : ℤ → ℤ
to_int32 (pos n) = to_int n
to_int32 (negsuc n) = to_int (2 ^ 32 - 1 - n % 2 ^ 32)

-- The C library: getopt_long over the arguments behind the "temp" at their front, which gives an
-- option's character with `optarg`, or -1 (`none`) at the end; strtol and strtod of base 10.
pub record Getopt : Type 1 where
  pub State : Type 0
  pub Real : Type 0
  pub start : List Bytes → Bytes → List LongOption → State
  pub next : State → Option (ℕ × Option Bytes) × State
  pub strtol : Bytes → ℤ
  pub strtod : Bytes → Real

module _ (lib : Getopt) where
  -- What an option is stored as, at the address of its `value`; `chars` is the array of a string.
  pub data Value : Type 0 where
    int_value : ℤ → Value
    long_value : ℤ → Value
    bool_value : Bool → Value
    real_value : lib.Real → Value
    chars : Bytes → Value

  abbrev pub Store : Type 0
  Store = ℕ → Value

  abbrev pub put : Store → ℕ → Value → Store
  put store v x a = if a == v then x else store a

  -- strncpy(value, optarg, n): the characters, zeros up to `n`, and the rest of the array as it was
  unfoldable pub strncpy : Value → Bytes → ℕ → Outcome Value
  strncpy (chars array) s n = do
    array ← write_bytes array 0 (take n (s ++ replicate n 0))
    ok (chars array)
  strncpy _ s n = fault

  -- The switch over the type of an option that was found; `optarg` may be NULL, which strtol, strtod
  -- and strncpy do not take.
  unfoldable pub store_option :
      (ℕ → Store → ℕ → Option Bytes → Outcome Store)
      → Store
      → CliOption
      → OptionType
      → Option Bytes
      → Outcome Store
  store_option functions store o int (some s) =
      ok (put store o.value (int_value (to_int32 (lib.strtol s))))
  store_option functions store o long (some s) = ok (put store o.value (long_value (lib.strtol s)))
  store_option functions store o float optarg = ok store
  store_option functions store o bool optarg = ok (put store o.value (bool_value true))
  store_option functions store o double (some s) =
      ok (put store o.value (real_value (lib.strtod s)))
  store_option functions store o string32 (some s) = do
    v ← strncpy (store o.value) s 31
    ok (put store o.value v)
  store_option functions store o string64 (some s) = do
    v ← strncpy (store o.value) s 63
    ok (put store o.value v)
  store_option functions store o callback optarg = call o.function
    where
      call : Option ℕ → Outcome Store
      call none = fault
      call (some f) = functions f store o.value optarg
  store_option functions store o _ none = fault

  -- What is returned, what is stored, and whether the help was printed.
  pub record Parsed : Type 0 where
    pub ret : ℤ
    pub store : Store
    pub help : List (ℕ × Bytes × Bytes)

  unfoldable pub found_option :
      (ℕ → Store → ℕ → Option Bytes → Outcome Store)
      → Store
      → Option CliOption
      → Option Bytes
      → Outcome Store
  found_option functions store none optarg = ok store
  found_option functions store (some o) optarg = store_option functions store o o.kind optarg

  -- A round of the loop behind its getopt_long, with the rounds that follow.
  unfoldable pub parse_round :
      (lib.State → Store → Outcome Parsed)
      → (ℕ → Store → ℕ → Option Bytes → Outcome Store)
      → List CliOption
      → Store
      → Option (ℕ × Option Bytes) × lib.State
      → Outcome Parsed
  parse_round rest functions copts store (none, st) =
      ok (record { ret = pos 0; store = store; help = [] })
  parse_round rest functions copts store (some (c, optarg), st) =
      let more = found_option functions store (find_option copts c) optarg >>= rest st in
      if c == b'h'
      then ok (record { ret = negsuc 21; store = store; help = print_help copts })
      else more

  unfoldable pub parse_loop :
      ℕ
      → (ℕ → Store → ℕ → Option Bytes → Outcome Store)
      → List CliOption
      → lib.State
      → Store
      → Outcome Parsed
  parse_loop zero functions copts st store = out_of_fuel
  parse_loop (suc fuel) functions copts st store =
      parse_round (λ st store. parse_loop fuel functions copts st store) functions copts store
        (lib.next st)

  -- `allocated`: the three calloc() succeed, or the code goes through NULL.
  unfoldable pub parse_options :
      Bool
      → ℕ
      → (ℕ → Store → ℕ → Option Bytes → Outcome Store)
      → List Bytes
      → List CliOption
      → Store
      → Outcome Parsed
  parse_options allocated fuel functions argv copts store = do
    s ← optstring allocated copts
    parse_loop fuel functions copts
        (lib.start ((b't' ∷ b'e' ∷ b'm' ∷ b'p' ∷ []) ∷ argv) s.chars
          (help_option ∷ long_options copts))
        store
