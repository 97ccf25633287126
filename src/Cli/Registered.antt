-- ===== src/Cli/Registered.antt =====
-- The table of commands of src/cli/cli_server.c implements a list of registered commands.
use cc_utils.Base.{
  ℕ, zero, suc, ◌-◌, ◌≤◌, ◌<◌, ◌≡◌, refl, ap, ◌∙◌, Option, none, some, List, [], ◌∷◌, ◌++◌, leb,
  if◌then◌else◌, length, length-append, replicate, arith, Bool-cases, inl, inr, ◌⊎◌, ◌+◌, sym,
  subst, take, true, false, Bool, All,
}
use mathlib.Core.List.{map}
use cc_utils.Base.Outcome.{ok, fault}
use cc_utils.Base.Int.{negsuc}
use cc_utils.Base.Bytes.{Bytes, bytes_eq, bytes_eq_refl, bytes_eq_sound}
use cc_utils.Cli.Table.{
  Command, Commands, empty, fill, cli_register, same_command, command_find, command_execute,
}

-- A command that was registered.
pub record Registration : Type 0 where
  pub name : Bytes
  pub help : Bytes
  pub execute : ℕ

abbrev pub slot_of : Registration → Command
slot_of r = record { subcommand = some r.name; help = some r.help; execute = some r.execute }

-- The function of the first registration whose name agrees.
unfoldable pub first_match : List Registration → Bytes → Option ℕ
first_match [] name = none
first_match (r ∷ rs) name =
    let rest = first_match rs name in if same_command r.name name then some r.execute else rest

-- The table holds the registrations, in their order, in front of empty slots.
pub record Holds (s : Commands) (rs : List Registration) : Type 0 where
  pub slots : s.slots ≡ map slot_of rs ++ replicate (1024 - length rs) empty
  pub count : s.regcnt ≡ length rs
  pub room : length rs ≤ 1023

execute_of : Option Command → Option ℕ
execute_of none = none
execute_of (some c) = c.execute

execute_of-find :
    (rs : List Registration) (free : ℕ) (name : Bytes)
    → execute_of (command_find (map slot_of rs ++ replicate free empty) name) ≡ first_match rs name
unfolding execute_of command_find first_match
execute_of-find [] zero name = refl
execute_of-find [] (suc free) name = refl
execute_of-find (r ∷ rs) free name = elim (Bool-cases (same_command r.name name)) [
  | inl same ↦ rw same
  | inr other ↦ rw other (execute_of-find rs free name)
]

fill-slots :
    (rs : List Registration) (r : Registration) (free : ℕ)
    → fill (slot_of r) (map slot_of rs ++ replicate (suc free) empty)
      ≡ map slot_of (rs ++ (r ∷ [])) ++ replicate free empty
unfolding fill
fill-slots [] r free = refl
fill-slots (r' ∷ rs) r free = ap (λ s. slot_of r' ∷ s) (fill-slots rs r free)

execute_of_elim : (o : Option Command) → elim o [ none ↦ none | some c ↦ c.execute ] ≡ execute_of o
unfolding execute_of
execute_of_elim none = refl
execute_of_elim (some c) = refl

pub command_execute-found :
    (s : Commands) (rs : List Registration) (name : Bytes)
    → Holds s rs
    → command_execute s name ≡ first_match rs name
unfolding command_execute
command_execute-found s rs name h =
    ap (λ t. elim (command_find t name) [ none ↦ none | some c ↦ c.execute ]) h.slots
    ∙ execute_of_elim (command_find (map slot_of rs ++ replicate (1024 - length rs) empty) name)
    ∙ execute_of-find rs (1024 - length rs) name

-- Two names agree in their first 32 characters.
abbrev pub Agrees : Bytes → Bytes → Type 0
Agrees a b = take 32 a ≡ take 32 b

-- `f` is the function of the first of the registrations whose name agrees, or none does.
abbrev pub Dispatches : List Registration → Bytes → Option ℕ → Type 0
Dispatches rs name none = All (λ r. ¬ (Agrees r.name name)) rs
Dispatches rs name (some f) =
    (front : List Registration) × (r : Registration) × (back : List Registration) × (rs
      ≡ front ++ (r ∷ back))
    × (f ≡ r.execute)
    × Agrees r.name name
    × All (λ r. ¬ (Agrees r.name name)) front

same_command-Agrees : (a b : Bytes) → same_command a b ≡ true → Agrees a b
same_command-Agrees a b h = bytes_eq_sound (take 32 a) (take 32 b) h

other_command : (a b : Bytes) → same_command a b ≡ false → ¬ (Agrees a b)
other_command a b h same =
    let yes : bytes_eq (take 32 a) (take 32 b) ≡ true =
      subst (λ t. bytes_eq (take 32 a) t ≡ true) same (bytes_eq_refl (take 32 a)) in
    absurd cc

Dispatches-behind :
    (r : Registration) (rs : List Registration) (name : Bytes) (o : Option ℕ)
    → ¬ (Agrees r.name name)
    → Dispatches rs name o
    → Dispatches (r ∷ rs) name o
Dispatches-behind r rs name none other none_agrees = (other, none_agrees)
Dispatches-behind r rs name (some f) other (front, q, back, e, same, agrees, others) =
    (r ∷ front, q, back, ap (λ l. r ∷ l) e, same, agrees, (other, others))

Dispatches-choose :
    (r : Registration) (rs : List Registration) (name : Bytes) (same : Bool)
    → same_command r.name name ≡ same
    → (o : Option ℕ) → Dispatches rs name o
    → Dispatches (r ∷ rs) name (if same then some r.execute else o)
Dispatches-choose r rs name true e o is =
    ([], r, rs, refl, refl, same_command-Agrees r.name name e, tt)
Dispatches-choose r rs name false e o is =
    Dispatches-behind r rs name o (other_command r.name name e) is

first_match-Dispatches :
    (rs : List Registration) (name : Bytes) → Dispatches rs name (first_match rs name)
unfolding first_match
first_match-Dispatches [] name = tt
first_match-Dispatches (r ∷ rs) name =
    Dispatches-choose r rs name (same_command r.name name) refl (first_match rs name)
      (first_match-Dispatches rs name)

-- command_execute calls the function of the first of the registered commands whose name agrees with the
-- one that is looked for in its first 32 characters, no name in front of it does, and it calls none
-- where no name does.
pub command_execute-first_match :
    (s : Commands) (rs : List Registration) (name : Bytes)
    → Holds s rs
    → Dispatches rs name (command_execute s name)
command_execute-first_match s rs name h =
    subst (Dispatches rs name) (sym (command_execute-found s rs name h))
      (first_match-Dispatches rs name)

-- cli_register on a table with fewer than 1023 commands puts the new one behind them where there is a
-- server, and faults at the lock of a handler that is NULL where there is none; on a table with 1023 it
-- returns -ENOSPC and leaves the table as it was, with and without a server.
pub cli_register-Holds :
    (s : Commands) (rs : List Registration) (r : Registration)
    → Holds s rs
    → (((length rs < 1023)
          × ((s' : Commands) × (cli_register true s r.name r.help r.execute ≡ ok (none, s'))
              × Holds s' (rs ++ (r ∷ [])))
          × (cli_register false s r.name r.help r.execute ≡ fault))
        ⊎ ((length rs ≡ 1023)
            × ((server : Bool)
                → cli_register server s r.name r.help r.execute ≡ ok (some (negsuc 27), s))))
unfolding cli_register
cli_register-Holds s rs r h = elim (Bool-cases (leb 1023 s.regcnt)) [
  | inl full ↦ inr (ground (arith, h.room, h.count), λ server. rw full refl)
  | inr space ↦
      let less : length rs < 1023 = ground (arith, h.count) in
      let free : 1024 - length rs ≡ suc (1024 - length (rs ++ (r ∷ []))) =
        omega (arith, length-append rs (r ∷ [])) in
      inl (
        less,
        (
          record { slots = fill (slot_of r) s.slots; regcnt = s.regcnt + 1 },
          rw space refl,
          record {
            slots =
                ap (fill (slot_of r)) (h.slots ∙ ap (λ n. map slot_of rs ++ replicate n empty) free)
                ∙ fill-slots rs r (1024 - length (rs ++ (r ∷ [])));
            count = omega (arith, h.count, length-append rs (r ∷ []));
            room = omega (arith, length-append rs (r ∷ []));
          },
        ),
        rw space refl,
      )
]
