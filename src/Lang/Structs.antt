-- ===== src/Lang/Structs.antt =====
-- The registry of structures: a table that grows, in which a name has its fields, each with its
-- default value. Memory is taken to be there.
use shahi_n_kernel.Lang.Variables.{grown}
use shahi_n_kernel.Prelude.Int.{pos_part, pos, is_neg, negsuc, ℤ}
use shahi_n_kernel.Lang.Expression.{and_then}
use shahi_n_kernel.Prelude.Find.{get_elem?, same_name, find_index}
use shahi_n_kernel.Lang.Value.{Value, Floats}
use mathlib.Core.Option
use shahi_n_kernel.Prelude.{
  ◌==◌, ◌∷◌, true, length, ◌++◌, false, if◌then◌else◌, set, Bool, some, [], List, ℕ, Option, none,
}

pub record Field (fs : Floats) : Type 0 where
  pub field_name : List ℕ
  pub default_value : Value fs

pub record Struct (fs : Floats) : Type 0 where
  pub struct_name : List ℕ
  pub fields : List (Field fs)

pub record Structs (fs : Floats) : Type 0 where
  pub structs : List (Struct fs)
  pub struct_capacity : ℕ

module _ (fs : Floats) where
  unfoldable pub structs_init : Structs fs
  structs_init = record { structs = []; struct_capacity = 0 }

  unfoldable pub titled : List ℕ → Struct fs → Bool
  titled name s = same_name s.struct_name name

  unfoldable pub struct_index : Structs fs → List ℕ → Option ℕ
  struct_index r name = find_index (titled name) r.structs

  unfoldable pub find_struct : Structs fs → List ℕ → Option (Struct fs)
  find_struct r name = and_then (struct_index r name) (get_elem? r.structs)

  unfoldable pub struct_exists : Structs fs → List ℕ → Bool
  struct_exists r name = elim (find_struct r name) [ none ↦ false | some s ↦ true ]

  -- The fields are replaced, or a new structure is put behind the others.
  unfoldable pub put_struct : Structs fs → Struct fs → Structs fs
  put_struct r s = elim (struct_index r s.struct_name) [
    | some i ↦ record { structs = set r.structs i s; struct_capacity = r.struct_capacity }
    | none ↦ record {
      structs = r.structs ++ s ∷ [];
      struct_capacity = grown 4 (length r.structs) r.struct_capacity;
    }
  ]

  unfoldable pub struct_register : List ℕ → List (Field fs) → Structs fs → Option (Structs fs)
  struct_register name fields r =
      if length name == 0
      then none
      else some (put_struct r (record { struct_name = name; fields = fields }))

  -- -1 for a name that is not there
  unfoldable pub struct_field_count : Structs fs → List ℕ → ℤ
  struct_field_count r name = elim (find_struct r name) [
    | none ↦ negsuc 0
    | some s ↦ pos (length s.fields)
  ]

  unfoldable pub field_at : Structs fs → List ℕ → (index : ℤ) → Option (Field fs)
  field_at r name index =
      if is_neg index
      then none
      else and_then (find_struct r name) λ s. get_elem? s.fields (pos_part index)

  unfoldable pub struct_field_name_at : Structs fs → List ℕ → (index : ℤ) → Option (List ℕ)
  struct_field_name_at r name index = Option.map (λ f. f.field_name) (field_at r name index)

  unfoldable pub struct_field_default_at : Structs fs → List ℕ → (index : ℤ) → Option (Value fs)
  struct_field_default_at r name index = Option.map (λ f. f.default_value) (field_at r name index)
