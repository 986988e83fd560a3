-- ===== src/Lang/Variables/Tests.antt =====
-- The theorems about variables at concrete ones, and runs of the code.
use shahi_n_kernel.Lang.Variables.Scope.{HasRoom, bytecode_vm_get_local-bytecode_vm_set_local}
use shahi_n_kernel.Lang.Variables.Locals.{bytecode_vm_set_local, a_local, bytecode_vm_get_local, Vm}
use shahi_n_kernel.Lang.Value.Convert.{to_i64}
use shahi_n_kernel.Lang.Value.Coerce.{convert, coerce, is_assignable}
use shahi_n_kernel.Lang.Variables.Store.{Cell, view_of}
use shahi_n_kernel.Lang.Variables.Refines.{assigned, declared}
use shahi_n_kernel.Prelude.Find.{find, change, find_index, same_name}
use shahi_n_kernel.Lang.Expression.{and_then}
use shahi_n_kernel.Lang.Value.Exact.{integer_floats}
use shahi_n_kernel.Prelude.Int.{pos}
use shahi_n_kernel.Lang.Variables.Typed.{execute-AreTyped, AreTyped}
use shahi_n_kernel.Lang.Variables.Runs.{
  variable_get_value-run, run-run_spec, assign, execute, is_plain, run, declare, command_spec,
  Command, run_spec, outcomes,
}
use shahi_n_kernel.Lang.Variables.{
  named, type_at, set_slot, give, store_in, store_or_fail, fresh_variable, with_variables,
  alloc_variable_slot, find_variable, converted, slot_for, variable_set_value, variable_declare,
  variable_get_value, local_of, Context,
}
use shahi_n_kernel.Lang.Variables.Readings.{is_builtin_variable, reading_in, reading_of, Devices}
use mathlib.Core.Option
use shahi_n_kernel.Prelude.{
  arith, some, if◌then◌else◌, ◌≡◌, List, refl, none, ℕ, [], ◌∷◌, true, false,
}
use shahi_n_kernel.Lang.Value.{type_of, type_index, int_value, text_value, char_value, int_type}

-- A machine on which nothing moves.
abbrev still : Devices
still = record {
  Machine = ℕ;
  fb_get_width = λ m. pos 1024;
  fb_get_height = λ m. pos 768;
  fb_get_pitch = λ m. pos 1024;
  back_buffer_ptr = λ m. 0;
  front_buffer_ptr = λ m. 0;
  mouse_x = λ m. pos 0;
  mouse_y = λ m. pos 0;
  mouse_dx = λ m. pos 0;
  mouse_dy = λ m. pos 0;
  mouse_left = λ m. false;
  consume_click = λ m. (false, m);
  rtc_get = λ field m. pos 0;
}

abbrev empty_context : Context integer_floats ℕ
empty_context = record { variables = []; variables_capacity = 0; active_vm = none; machine = 0 }

-- `x` declared as an integer, given a character, then `y` a text that it cannot take.
abbrev three_commands : List (Command integer_floats)
three_commands =
    declare (120 ∷ []) int_type (int_value (pos 5))
    ∷ assign (120 ∷ []) (char_value 65)
    ∷ declare (121 ∷ []) int_type (text_value (97 ∷ []))
    ∷ []

run-run_spec_example :
    outcomes integer_floats ℕ (run integer_floats ℕ three_commands empty_context)
    ≡ run_spec integer_floats three_commands (view_of integer_floats [])
run-run_spec_example = run-run_spec integer_floats ℕ three_commands empty_context

no_local :
    local_of integer_floats ℕ (120 ∷ []) (run integer_floats ℕ three_commands empty_context).1
    ≡ none
unfolding local_of and_then run execute variable_declare variable_set_value slot_for find_variable
    find_index alloc_variable_slot with_variables fresh_variable store_or_fail converted
    is_assignable type_index type_of coerce convert to_i64 store_in change give set_slot type_at
    is_builtin_variable reading_of reading_in same_name named
no_local = refl

no_reading : reading_of (120 ∷ []) ≡ none
unfolding reading_of reading_in same_name
no_reading = refl

variable_get_value-run_example :
    (variable_get_value integer_floats still
      (120 ∷ [])
      (run integer_floats ℕ three_commands empty_context).1).0
    ≡ Option.map
        (λ (c : Cell integer_floats). c.0)
        ((run_spec integer_floats three_commands (view_of integer_floats [])).1 (120 ∷ []))
variable_get_value-run_example =
    variable_get_value-run integer_floats still three_commands empty_context (120 ∷ []) no_local
      no_reading

-- The text does not suit the type, so that the last command fails.
after_commands :
    (run_spec integer_floats three_commands (view_of integer_floats [])).0
    ≡ true ∷ true ∷ false ∷ []
unfolding run_spec command_spec is_plain declared assigned converted is_assignable type_index
    type_of coerce convert to_i64 is_builtin_variable reading_of reading_in same_name find
after_commands = refl

execute-AreTyped_example :
    AreTyped integer_floats
      (execute integer_floats ℕ
        (declare (120 ∷ []) int_type (int_value (pos 5)))
        empty_context).1.variables
execute-AreTyped_example =
    execute-AreTyped integer_floats ℕ (declare (120 ∷ []) int_type (int_value (pos 5)))
      empty_context tt

-- One local in a table with no room left.
abbrev one_local : Vm integer_floats
one_local = record {
  locals = a_local integer_floats (120 ∷ []) (int_value (pos 1)) ∷ [];
  local_capacity = 1;
}

bytecode_vm_get_local-bytecode_vm_set_local_example :
    let vm' = bytecode_vm_set_local integer_floats one_local (121 ∷ []) (int_value (pos 2)) in
    (bytecode_vm_get_local integer_floats vm' (120 ∷ []) ≡ (
      if same_name (121 ∷ []) (120 ∷ [])
      then some (int_value (pos 2))
      else bytecode_vm_get_local integer_floats one_local (120 ∷ [])))
    × HasRoom integer_floats vm'
bytecode_vm_get_local-bytecode_vm_set_local_example =
    bytecode_vm_get_local-bytecode_vm_set_local integer_floats one_local (121 ∷ [])
      (int_value (pos 2)) (120 ∷ []) (omega arith)
