-- ===== src/Lang/Functions.antt =====
-- The functions of a context: a table that grows, in which a name has its parameters and either the
-- lines of its body or compiled code. Memory is taken to be there, and a context to be current.
-- pub mod Laws
use shahi_n_kernel.Lang.Variables.{grown}
use shahi_n_kernel.Lang.Expression.{and_then}
use shahi_n_kernel.Prelude.Find.{get_elem?, same_name, find_index}
use shahi_n_kernel.Prelude.{
  length, ◌∷◌, ◌==◌, ◌++◌, if◌then◌else◌, set, Bool, some, [], List, ℕ, Option, none,
}

pub record Function : Type 0 where
  pub name : List ℕ
  pub parameters : List (List ℕ)
  pub lines : List (List ℕ)
  -- The compiled code, by its address and size.
  pub jit_code : Option (ℕ × ℕ)

pub record Functions : Type 0 where
  pub functions : List Function
  pub functions_capacity : ℕ

unfoldable pub called : List ℕ → Function → Bool
called name f = same_name f.name name

unfoldable pub functions_init : Functions → Functions
functions_init ctx = record { functions = []; functions_capacity = ctx.functions_capacity }

unfoldable pub function_at : Functions → List ℕ → Option ℕ
function_at ctx name = find_index (called name) ctx.functions

unfoldable pub function_find : Functions → List ℕ → Option Function
function_find ctx name = and_then (function_at ctx name) (get_elem? ctx.functions)

-- The place of the function is used again, or a new one behind the others.
unfoldable pub put_function : Functions → Function → Functions
put_function ctx f = elim (function_at ctx f.name) [
  | some i ↦ record {
    functions = set ctx.functions i f;
    functions_capacity = ctx.functions_capacity;
  }
  | none ↦ record {
    functions = ctx.functions ++ f ∷ [];
    functions_capacity = grown 4 (length ctx.functions) ctx.functions_capacity;
  }
]

-- A new body takes the compiled code away.
unfoldable pub fill_function : (name : List ℕ) (parameters lines : List (List ℕ)) → Function
fill_function name parameters lines = record {
  name = name;
  parameters = parameters;
  lines = lines;
  jit_code = none;
}

unfoldable pub function_register :
    (name : List ℕ) (parameters lines : List (List ℕ)) → Functions → Functions
function_register name parameters lines ctx = put_function ctx (fill_function name parameters lines)

unfoldable pub compiled_function :
    (name : List ℕ) (parameters : List (List ℕ)) (code size : ℕ) → Function
compiled_function name parameters code size = record {
  name = name;
  parameters = parameters;
  lines = [];
  jit_code = some (code, size);
}

-- Code at address 0 is refused.
unfoldable pub function_register_aot :
    (name : List ℕ) (parameters : List (List ℕ)) (code size : ℕ) → Functions → Option Functions
function_register_aot name parameters code size ctx =
    if code == 0
    then none
    else some (put_function ctx (compiled_function name parameters code size))
