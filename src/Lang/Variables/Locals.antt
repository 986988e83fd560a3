-- ===== src/Lang/Variables/Locals.antt =====
-- The locals of a running function: a table that grows, in which a name has a value.
use shahi_n_kernel.Lang.Expression.{and_then}
use shahi_n_kernel.Prelude.Find.{same_name, get_elem?, change, find_index}
use shahi_n_kernel.Lang.Value.{Value, Floats}
use mathlib.Core.Option
use shahi_n_kernel.Prelude.{
  none, ◌∷◌, ◌++◌, ◌+◌, length, ◌&&◌, ◌==◌, some, true, leb, ltb, Bool, [], if◌then◌else◌, ◌*◌,
  List, zero, suc, ℕ, Option,
}

pub record Local (fs : Floats) : Type 0 where
  pub local_name : List ℕ
  pub local_value : Value fs
  pub local_used : Bool

pub record Vm (fs : Floats) : Type 0 where
  pub locals : List (Local fs)
  pub local_capacity : ℕ

-- `while (nc < needed) nc *= 2`
unfoldable pub doubled : (fuel needed nc : ℕ) → ℕ
doubled zero needed nc = nc
doubled (suc fuel) needed nc =
    let more = doubled fuel needed (nc * 2) in if ltb nc needed then more else nc

module _ (fs : Floats) where
  unfoldable pub vm_locals_grow : Vm fs → (needed : ℕ) → Vm fs
  vm_locals_grow vm needed =
      if leb needed vm.local_capacity
      then vm
      else (let first : ℕ = if vm.local_capacity == 0 then 16 else vm.local_capacity * 2 in
          record { locals = vm.locals; local_capacity = doubled needed needed first })

  unfoldable pub bytecode_vm_init : Vm fs
  bytecode_vm_init = record { locals = []; local_capacity = 0 }

  -- Names and values are freed with the table.
  unfoldable pub bytecode_vm_free : Vm fs → Vm fs
  unfolding bytecode_vm_init
  bytecode_vm_free vm = bytecode_vm_init

  unfoldable pub named_local : List ℕ → Local fs → Bool
  named_local name l = l.local_used && same_name l.local_name name

  unfoldable pub vm_find_local : Vm fs → List ℕ → Option ℕ
  vm_find_local vm name = find_index (named_local name) vm.locals

  unfoldable pub a_local : List ℕ → Value fs → Local fs
  a_local name v = record { local_name = name; local_value = v; local_used = true }

  unfoldable pub set_local_value : Value fs → Local fs → Local fs
  set_local_value v l = record {
    local_name = l.local_name;
    local_value = v;
    local_used = l.local_used;
  }

  unfoldable pub bytecode_vm_set_local : Vm fs → List ℕ → Value fs → Vm fs
  bytecode_vm_set_local vm name v = elim (vm_find_local vm name) [
    | some i ↦ record {
      locals = change vm.locals i (set_local_value v);
      local_capacity = vm.local_capacity;
    }
    | none ↦
        let vm' = vm_locals_grow vm (length vm.locals + 1) in
        record { locals = vm'.locals ++ a_local name v ∷ []; local_capacity = vm'.local_capacity }
  ]

  unfoldable pub bytecode_vm_get_local : Vm fs → List ℕ → Option (Value fs)
  bytecode_vm_get_local vm name =
      and_then (vm_find_local vm name) λ i. Option.map (λ l. l.local_value) (get_elem? vm.locals i)
