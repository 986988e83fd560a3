-- ===== src/Lang/Value/Tests.antt =====
-- The theorems about values at concrete ones, and runs of the code.
use mathlib.Core.Option
use shahi_n_kernel.Lang.Value.Round.{to_i64-to_text}
use shahi_n_kernel.Prelude.Int.{negsuc}
use shahi_n_kernel.Lang.Value.Laws.{coerce_typed, char_text-encode, promote_comm}
use shahi_n_kernel.Text.Cstring.Utf.{encode}
use shahi_n_kernel.Lang.Value.Exact.{integers-IsExact, integer_floats}
use shahi_n_kernel.Lang.Expression.{and_then}
use shahi_n_kernel.Lang.Value.Convert.{to_i64, to_text, char_text}
use shahi_n_kernel.Lang.Value.Coerce.{coerce, promote, is_assignable}
use shahi_n_kernel.Prelude.{[], ◌==◌, if◌then◌else◌, arith, ap, ◌≡◌, ◌≢◌, refl, some, true}
use shahi_n_kernel.Lang.Value.{
  unknown_type, type_of, type_index, int_value, double_type, text_value, char_value, int_type,
  ptr_type,
}

double_is_known : double_type ≢ unknown_type
unfolding type_index
double_is_known e = let v = ap type_index e in omega (arith, v)

a_character : is_assignable double_type (type_of integer_floats (char_value 65)) ≡ true
unfolding is_assignable type_of type_index
a_character = refl

coerce_typed_example :
    Option.map (type_of integer_floats) (coerce integer_floats (char_value 65) double_type)
    ≡ some double_type
coerce_typed_example =
    coerce_typed integer_floats double_type (char_value 65) double_is_known a_character

char_text-encode_example : char_text 1575 ≡ (if 1575 == 0 then [] else encode 1575)
char_text-encode_example = char_text-encode 1575 (omega arith)

to_i64-to_text_example :
    and_then
      (to_text integer_floats (int_value (negsuc 4095)))
      (λ s. to_i64 integer_floats (text_value s))
    ≡ some (negsuc 4095)
to_i64-to_text_example = to_i64-to_text integer_floats integers-IsExact (negsuc 4095) (omega arith)

promote_comm_test : promote int_type ptr_type ≡ promote ptr_type int_type
promote_comm_test = promote_comm int_type ptr_type
