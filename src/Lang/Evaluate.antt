-- ===== src/Lang/Evaluate.antt =====
-- The evaluation of a tree to a typed value. What it asks of the rest of the language (variables,
-- functions and arrays) is an interface; nothing is left of the operands but the result.
pub mod Meaning
pub mod Steps
pub mod Sound
mod Tests
use shahi_n_kernel.Lang.Value.Convert.{to_i64, to_f64}
use shahi_n_kernel.Lang.Parser.{math_parse_ast}
use shahi_n_kernel.Prelude.Int.{pattern64, signed32, pos, signed64, ℤ}
use shahi_n_kernel.Lang.Value.Arith.{
  neg_value, cmp_values, bit_xor_values, bit_or_values, bit_and_values, shr_values, shl_values,
  mod_values, div_values, mul_values, sub_values, truthy, add_values,
}
use mathlib.Core.Option
use shahi_n_kernel.Prelude.{
  ◌∷◌, [], ◌||◌, ltb, ◌^◌, false, true, none, ◌&&◌, zero, suc, if◌then◌else◌, Bool, List, some,
  Option, ℕ,
}
use shahi_n_kernel.Lang.Value.{
  text_value, array_value, double_value, Floats, Value, int_value, bool_value,
}
use shahi_n_kernel.Lang.Expression.{
  Doubles, Op, Ast, Asts, ast_add, ast_sub, ast_mul, ast_div, ast_mod, ast_shl, ast_shr,
  ast_bit_and, ast_bit_or, ast_bit_xor, ast_and, ast_or, ast_number, ast_string, ast_variable,
  ast_function_call, ast_binary, ast_neg, ast_array_lit, ast_assignment, no_asts, more_asts,
}

pub record Host (fs : Floats) : Type 1 where
  pub State : Type 0
  -- variable_get_value and variable_set_value; the second tells whether it succeeds.
  pub get_value : List ℕ → State → Option (Value fs) × State
  pub set_value : List ℕ → Value fs → State → Bool × State
  -- function_find and arp_invoke_function_typed
  pub function_find : List ℕ → State → Bool
  pub invoke : List ℕ → List (Value fs) → State → Option (Value fs) × State
  -- The array at an address: arp_array_get, and its number of elements.
  pub array_get : ℕ → List ℤ → State → Option (Value fs)
  pub total : State → ℕ → ℕ

-- A computation fails or gives a result, and changes the state either way.
abbrev pub Runs {ℓ} : Type 0 → Type ℓ → Type ℓ
Runs S A = S → Option A × S

module _ {S : Type 0} where
  abbrev pub returns {ℓ} : {A : Type ℓ} → Option A → Runs S A
  returns o s = (o, s)

  unfoldable pub continue {ℓ ℓ'} :
      {A : Type ℓ} {B : Type ℓ'} → (A → Runs S B) → Option A × S → Option B × S
  continue f (none, s) = (none, s)
  continue f (some a, s) = f a s

  unfoldable pub bind {ℓ ℓ'} : {A : Type ℓ} {B : Type ℓ'} → Runs S A → (A → Runs S B) → Runs S B
  bind m f s = continue f (m s)

-- `fs.f64` as the reader's numbers: `(double)(int64_t)x` of a pattern.
abbrev pub doubles : Floats → Doubles
doubles fs = record {
  Double = fs.f64.Real;
  of_i64 = λ p. fs.f64.of_int (signed64 p);
  add = fs.f64.add;
  mul = fs.f64.mul;
  div = fs.f64.div;
}

unfoldable pub is_logical : Op → Bool
is_logical ast_and = true
is_logical ast_or = true
is_logical op = false

module _ (fs : Floats) where
  abbrev pub Tree : Type 0
  Tree = Ast fs.f64.Real

  -- `d >= -9223372036854775808.0 && d < 9223372036854775808.0`, behind the test for a whole number
  unfoldable pub is_whole : fs.f64.Real → Bool
  is_whole d =
      fs.f64.eq d (fs.f64.of_int (fs.f64.to_i64 d))
      && fs.f64.le (fs.f64.neg (fs.f64.of_int (pos (2 ^ 63)))) d
      && fs.f64.lt d (fs.f64.of_int (pos (2 ^ 63)))

  unfoldable pub number_value : fs.f64.Real → Value fs
  number_value d = if is_whole d then int_value (fs.f64.to_i64 d) else double_value d

  -- The operators other than `&&` and `||`.
  unfoldable pub apply : Op → Value fs → Value fs → Option (Value fs)
  apply ast_add a b = add_values fs a b
  apply ast_sub a b = sub_values fs a b
  apply ast_mul a b = mul_values fs a b
  apply ast_div a b = div_values fs a b
  apply ast_mod a b = mod_values fs a b
  apply ast_shl a b = shl_values fs a b
  apply ast_shr a b = shr_values fs a b
  apply ast_bit_and a b = bit_and_values fs a b
  apply ast_bit_or a b = bit_or_values fs a b
  apply ast_bit_xor a b = bit_xor_values fs a b
  apply op a b = Option.map (λ c. bool_value c) (cmp_values fs op a b)

  module _ (host : Host fs) where
    abbrev pub Evals {ℓ} : Type ℓ → Type ℓ
    Evals A = Runs host.State A

    -- What the operators that may skip their right side do with the left one, if it is decided.
    unfoldable pub decided : Op → (total : ℕ → ℕ) → Value fs → Option Bool
    decided ast_and total v = if truthy fs total v then none else some false
    decided ast_or total v = if truthy fs total v then some true else none
    decided op total v = none

    unfoldable pub truth : Value fs → Evals (Value fs)
    truth v s = (some (bool_value (truthy fs (host.total s) v)), s)

    -- The right side of `&&` or `||`, where the left one has a value.
    unfoldable pub logical : Op → Evals (Value fs) → Value fs → Evals (Value fs)
    logical op right v s = elim (decided op (host.total s) v) [
      | some b ↦ (some (bool_value b), s)
      | none ↦ bind right truth s
    ]

    unfoldable pub operate : Op → Evals (Value fs) → Evals (Value fs) → Evals (Value fs)
    operate op left right =
        if is_logical op
        then bind left (logical op right)
        else bind left λ a. bind right λ b. returns (apply op a b)

    -- The element of an array that a variable holds; `indices` evaluates them.
    unfoldable pub index : (count : ℕ) → Evals (List ℤ) → Option (Value fs) → Evals (Value fs)
    index count indices (some (array_value a)) s =
        if ltb count 1 || ltb 8 count
        then (none, s)
        else bind indices (λ xs s'. (host.array_get a xs s', s')) s
    index count indices holder s = (none, s)

    unfoldable pub index_into : List ℕ → (count : ℕ) → Evals (List ℤ) → Evals (Value fs)
    index_into name count indices s =
        let (holder, s') = host.get_value name s in index count indices holder s'

    -- A call of a registered function, or else the element of an array.
    unfoldable pub call :
        List ℕ → (count : ℕ) → Evals (List (Value fs)) → Evals (List ℤ) → Evals (Value fs)
    call name count values indices s =
        if host.function_find name s
        then bind values (host.invoke name) s
        else index_into name count indices s

    unfoldable pub assign : List ℕ → Value fs → Evals (Value fs)
    assign name v s = let (ok, s') = host.set_value name v s in (if ok then some v else none, s')

    unfoldable pub count_asts : Asts fs.f64.Real → ℕ
    count_asts no_asts = 0
    count_asts (more_asts a rest) = suc (count_asts rest)

    unfoldable mutual
      pub evaluate : Tree → Evals (Value fs)
      evaluate (ast_number d) = returns (some (number_value d))
      evaluate (ast_string s) = returns (some (text_value s))
      evaluate (ast_variable name) = host.get_value name
      evaluate (ast_function_call name args) =
          call name (count_asts args) (evaluate_args args) (evaluate_indices args)
      evaluate (ast_binary op l r) = operate op (evaluate l) (evaluate r)
      evaluate (ast_neg a) = bind (evaluate a) λ v. returns (neg_value fs v)
      evaluate (ast_array_lit items) = returns none
      evaluate (ast_assignment name a) = bind (evaluate a) (assign name)

      pub evaluate_args : Asts fs.f64.Real → Evals (List (Value fs))
      evaluate_args no_asts = returns (some [])
      evaluate_args (more_asts a rest) =
          bind (evaluate a) λ v. bind (evaluate_args rest) λ vs. returns (some (v ∷ vs))

      -- The indices, each cut to an `int`.
      pub evaluate_indices : Asts fs.f64.Real → Evals (List ℤ)
      evaluate_indices no_asts = returns (some [])
      evaluate_indices (more_asts a rest) = bind (evaluate a) λ v.
          bind (returns (to_i64 fs v))
            λ x. bind (evaluate_indices rest) λ xs. returns (some (signed32 (pattern64 x) ∷ xs))

    -- The value of the text of an expression, as a double.
    unfoldable pub math_calculate : List ℕ → Evals fs.f64.Real
    math_calculate expression =
        bind (returns (math_parse_ast (doubles fs) expression))
          λ root. bind (evaluate root) λ v. returns (to_f64 fs v)
