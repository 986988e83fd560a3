-- ===== src/Lang/Variables.antt =====
-- The variables of a context: a table that grows, in which a variable has a name, a value and the
-- type it was declared with, if it was. A context is taken to be current, and memory to be there.
-- A variable is read from the running function's locals first, then from the machine.
pub mod Readings
pub mod Locals
pub mod Store
pub mod Scope
pub mod Refines
pub mod Runs
pub mod Typed
mod Tests
use shahi_n_kernel.Lang.Variables.Locals.{bytecode_vm_get_local, Vm}
use shahi_n_kernel.Lang.Value.Convert.{to_text}
use shahi_n_kernel.Lang.Value.Coerce.{coerce, is_assignable}
use shahi_n_kernel.Lang.Expression.{and_then}
use shahi_n_kernel.Prelude.Find.{change, same_name, get_elem?, find_index}
use shahi_n_kernel.Lang.Variables.Readings.{is_builtin_variable, read_device, reading_of, Devices}
use mathlib.Core.Option
use shahi_n_kernel.Prelude.{
  ◌-◌, take, ◌∷◌, set, none, ◌||◌, ◌++◌, ◌+◌, false, length, some, true, ◌&&◌, ltb, ◌==◌, Bool, [],
  ◌*◌, leb, List, zero, suc, if◌then◌else◌, ℕ, Option,
}
use shahi_n_kernel.Lang.Value.{
  type_of, ◌is◌, ValueType, Floats, Value, unknown, unknown_type, int_value, bool_value,
}

pub record Variable (fs : Floats) : Type 0 where
  pub name : List ℕ
  pub value : Value fs
  pub declared_type : ValueType
  pub used : Bool

pub record Context (fs : Floats) (M : Type 0) : Type 0 where
  pub variables : List (Variable fs)
  pub variables_capacity : ℕ
  pub active_vm : Option (Vm fs)
  pub machine : M

-- `capacity ? capacity * 2 : first`, where the table is full
unfoldable pub grown : (first count capacity : ℕ) → ℕ
grown first count capacity =
    if leb capacity count then (if capacity == 0 then first else capacity * 2) else capacity

module _ (fs : Floats) where
  unfoldable pub named : List ℕ → Variable fs → Bool
  named name v = v.used && same_name v.name name

  -- A new slot, which gets the name at once.
  unfoldable pub fresh_variable : List ℕ → Variable fs
  fresh_variable name = record {
    name = name;
    value = unknown;
    declared_type = unknown_type;
    used = true;
  }

  unfoldable pub give : Value fs → ValueType → Variable fs → Variable fs
  give v t slot = record { name = slot.name; value = v; declared_type = t; used = slot.used }

  -- The value as the slot takes it: converted, if it may be given to that type.
  unfoldable pub converted : ValueType → Value fs → Option (Value fs)
  converted t v = if is_assignable t (type_of fs v) then coerce fs v t else none

  module _ (M : Type 0) where
    unfoldable pub find_variable : Context fs M → List ℕ → Option ℕ
    find_variable ctx name = find_index (named name) ctx.variables

    unfoldable pub with_variables :
        Context fs M → List (Variable fs) → (capacity : ℕ) → Context fs M
    with_variables ctx vs capacity = record {
      variables = vs;
      variables_capacity = capacity;
      active_vm = ctx.active_vm;
      machine = ctx.machine;
    }

    unfoldable pub arp_get_active_vm : Context fs M → Option (Vm fs)
    arp_get_active_vm ctx = ctx.active_vm

    unfoldable pub arp_set_active_vm : Option (Vm fs) → Context fs M → Context fs M
    arp_set_active_vm vm ctx = record {
      variables = ctx.variables;
      variables_capacity = ctx.variables_capacity;
      active_vm = vm;
      machine = ctx.machine;
    }

    unfoldable pub variables_init : Context fs M → Context fs M
    variables_init ctx = with_variables ctx [] 0

    unfoldable pub alloc_variable_slot : Context fs M → List ℕ → ℕ × Context fs M
    alloc_variable_slot ctx name =
        let count = length ctx.variables in
        (
          count,
          with_variables ctx (ctx.variables ++ fresh_variable name ∷ [])
              (grown 16 count ctx.variables_capacity),
        )

    -- The slot of a variable, made where there is none.
    unfoldable pub slot_for : Context fs M → List ℕ → ℕ × Context fs M
    slot_for ctx name = elim (find_variable ctx name) [
      | some i ↦ (i, ctx)
      | none ↦ alloc_variable_slot ctx name
    ]

    unfoldable pub store_in : Context fs M → ℕ → Value fs → ValueType → Context fs M
    store_in ctx i v t =
        with_variables ctx (change ctx.variables i (give v t)) ctx.variables_capacity

    -- `return -1` with what was done so far, or the value stored.
    unfoldable pub store_or_fail :
        ℕ × Context fs M → ValueType → Option (Value fs) → Bool × Context fs M
    store_or_fail (i, ctx) t none = (false, ctx)
    store_or_fail (i, ctx) t (some v) = (true, store_in ctx i v t)

    unfoldable pub variable_declare :
        List ℕ → ValueType → Value fs → Context fs M → Bool × Context fs M
    variable_declare name t initial ctx =
        if (length name == 0) || is_builtin_variable name || (t is unknown_type)
        then (false, ctx)
        else store_or_fail (slot_for ctx name) t (converted t initial)

    unfoldable pub type_at : Context fs M → ℕ → ValueType
    type_at ctx i = elim (get_elem? ctx.variables i) [
      | none ↦ unknown_type
      | some slot ↦ slot.declared_type
    ]

    unfoldable pub variable_get_declared_type : List ℕ → Context fs M → Option ValueType
    variable_get_declared_type name ctx = Option.map (type_at ctx) (find_variable ctx name)

    unfoldable pub set_slot : Value fs → ℕ × Context fs M → Bool × Context fs M
    set_slot v (i, ctx) =
        let t = type_at ctx i in
        if t is unknown_type
        then (true, store_in ctx i v t)
        else store_or_fail (i, ctx) t (converted t v)

    unfoldable pub variable_set_value : List ℕ → Value fs → Context fs M → Bool × Context fs M
    variable_set_value name v ctx =
        if (length name == 0) || is_builtin_variable name
        then (false, ctx)
        else set_slot v (slot_for ctx name)

    unfoldable pub global_value : List ℕ → Context fs M → Option (Value fs)
    global_value name ctx =
        and_then (find_variable ctx name)
          λ i. Option.map (λ slot. slot.value) (get_elem? ctx.variables i)

    unfoldable pub local_of : List ℕ → Context fs M → Option (Value fs)
    local_of name ctx = and_then ctx.active_vm λ vm. bytecode_vm_get_local fs vm name

  module _ (dev : Devices) where
    unfoldable pub with_machine : Context fs dev.Machine → dev.Machine → Context fs dev.Machine
    with_machine ctx m = record {
      variables = ctx.variables;
      variables_capacity = ctx.variables_capacity;
      active_vm = ctx.active_vm;
      machine = m;
    }

    unfoldable pub read_global :
        List ℕ → Context fs dev.Machine → Option (Value fs) × Context fs dev.Machine
    read_global name ctx = elim (reading_of name) [
      | some r ↦ let (v, m) = read_device fs dev r ctx.machine in (some v, with_machine ctx m)
      | none ↦ (global_value dev.Machine name ctx, ctx)
    ]

    unfoldable pub variable_get_value :
        List ℕ → Context fs dev.Machine → Option (Value fs) × Context fs dev.Machine
    variable_get_value name ctx = elim (local_of dev.Machine name ctx) [
      | some v ↦ (some v, ctx)
      | none ↦ read_global name ctx
    ]

    -- A buffer's text: as much as fits in front of the NUL.
    unfoldable pub variable_to_string :
        List ℕ
        → (buffer_size : ℕ) → Context fs dev.Machine
        → Option (List ℕ) × Context fs dev.Machine
    variable_to_string name size ctx =
        if size == 0
        then (none, ctx)
        else (let (v, ctx') = variable_get_value name ctx in
            (Option.map (take (size - 1)) (and_then v (to_text fs)), ctx'))
