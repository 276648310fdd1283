-- ===== src/Command.antt =====
-- src/hal_interface.c: `halevt_run_command`, which fills the places of a command and hands it to
-- the shell. The buffer grows by `int` arithmetic, kept here: a result `none` is undefined
-- behaviour, by a size out of the range of `int`, a write outside the buffer, or a NULL udi.
pub mod Sizes
pub mod Growth
use gnu_halevt.Base.{
  ℕ, ◌+◌, ◌*◌, ◌^◌, Bool, List, [], ◌∷◌, ◌++◌, Option, none, some, Bytes, codes, length, strcat,
  ltb, if◌then◌else◌, ◌>>=◌,
}
use gnu_halevt.Names.{PropertyName}
use gnu_halevt.Exec.{ExecElement, text, hal_value, Exec}

-- The first value; no array, or an empty one, gives "UNKNOWN".
unfoldable first_or_unknown : Option (List Bytes) → Bytes
first_or_unknown (some (s ∷ ss)) = s
first_or_unknown _ = codes "UNKNOWN"

-- `name_value` is `halevt_property_name_value` with the udi and the device of the call.
module _ (name_value : PropertyName → Option (Option (List Bytes))) where
  unfoldable pub element_value : ExecElement → Option Bytes
  unfolding first_or_unknown
  element_value (text string) = some string
  element_value (hal_value property) = do
    values ← name_value property
    some (first_or_unknown values)

abbrev pub int_limit : ℕ
int_limit = 2 ^ 31

-- The local variables of the loop.
pub record Buffer : Type 0 where
  pub string_size : ℕ
  pub current_size : ℕ
  pub command : Bytes

abbrev pub start : Buffer
start = record { string_size = 255; current_size = 1; command = [] }

-- The branch that appends, with the sizes that it computes.
unfoldable pub enlarge : Buffer → Bytes → Option Buffer
unfolding strcat
enlarge b string =
    let str_len = length string in
    let string_size = 2 * (str_len + b.string_size) in
    if ltb string_size int_limit
    then (do
      command ← strcat string_size b.command string
      some (record {
        string_size = string_size;
        current_size = b.current_size + str_len;
        command = command;
      }))
    else none

-- One round. Where the test fails nothing is appended.
unfoldable pub append : Buffer → Bytes → Option Buffer
unfolding enlarge
append b string =
    if ltb b.current_size (length string + b.string_size) then enlarge b string else some b

module _ (name_value : PropertyName → Option (Option (List Bytes))) where
  unfoldable pub fill : Buffer → List ExecElement → Option Buffer
  unfolding element_value append
  fill b [] = some b
  fill b (e ∷ es) = do string ← element_value name_value e; b' ← append b string; fill b' es

  -- The command that `/bin/sh -c` is spawned with. Whether that succeeds is returned, and no
  -- caller looks at it.
  unfoldable pub run_command : Exec → Option Bytes
  unfolding fill
  run_command exec = do b ← fill start exec.elements; some b.command
