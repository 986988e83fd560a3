-- ===== src/Lang/Value/Laws.antt =====
-- What the conversions of values keep.
use shahi_n_kernel.Prelude.Bits.{every_below_at, every_below}
use shahi_n_kernel.Text.Cstring.Utf.{encode}
use shahi_n_kernel.Lang.Value.Convert.{char_text, to_text, to_f64, to_f32, to_i64}
use shahi_n_kernel.Lang.Value.Coerce.{
  to_ptr, to_bool, to_char, convert, coerce, type_rank, is_assignable, promote,
}
use mathlib.Core.Option
use shahi_n_kernel.Prelude.{
  [], if◌then◌else◌, ◌==◌, ◌%◌, ◌+◌, Bool, ◌/◌, bit_or, ◌<◌, arith, true, ◌≢◌, ◌≡◌, refl, some, ℕ,
}
use shahi_n_kernel.Lang.Value.{type_of, ValueType, type_index, Floats, unknown_type, Value}

pub promote_comm : (a b : ValueType) → promote a b ≡ promote b a
unfolding promote type_index type_rank
promote_comm a b = ground arith

module _ (fs : Floats) where
  -- A value that may be given to a declared type, other than the unknown one, is converted to a value
  -- of that type.
  pub coerce_typed :
      (declared : ValueType) (v : Value fs)
      → declared ≢ unknown_type
      → is_assignable declared (type_of fs v) ≡ true
      → Option.map (type_of fs) (coerce fs v declared) ≡ some declared
  unfolding is_assignable coerce convert to_char to_bool to_ptr to_i64 to_f32 to_f64 to_text type_of
      type_index
  coerce_typed declared v d h = ground arith

-- Marks and bits that do not meet are joined by a sum.
joins : (mark bound : ℕ) → Bool
unfolding every_below
joins mark bound = every_below (λ r. bit_or mark r == mark + r) bound

join : (mark bound r : ℕ) → joins mark bound ≡ true → r < bound → bit_or mark r ≡ mark + r
unfolding joins
join mark bound r table h =
    let e = every_below_at (λ r. bit_or mark r == mark + r) bound table r h in ground (arith, e)

follows : (r : ℕ) → bit_or 128 (r % 64) ≡ 128 + r % 64
unfolding joins
follows r = join 128 64 (r % 64) refl (omega arith)

-- The text of a character below 0x110000 is its UTF-8 encoding, except that the character 0 gives the
-- empty text.
pub char_text-encode : (c : ℕ) → c < 1114112 → char_text c ≡ (if c == 0 then [] else encode c)
unfolding char_text encode joins
char_text-encode c h =
    let two = λ (l : c / 64 < 32). join 192 32 (c / 64) refl l in
    let three = λ (l : c / 4096 < 16). join 224 16 (c / 4096) refl l in
    let four = join 240 5 (c / 262144) refl (omega arith) in
    ground (arith, follows c, follows (c / 64), follows (c / 4096), two, three, four)
