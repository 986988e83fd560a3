-- ===== src/Lang/Arrays/Tests.antt =====
-- The theorems about arrays at concrete arrays, and runs of the code.
use mathlib.Core.Option
use shahi_n_kernel.Lang.Arrays.Init.{arp_array_init-Holds}
use shahi_n_kernel.Prelude.Int.{is_nonpos, ◌*ℤ◌, pattern64, signed32, int32, pos}
use shahi_n_kernel.Lang.Value.Exact.{integer_floats}
use shahi_n_kernel.Lang.Arrays.Laws.{ints, volume}
use shahi_n_kernel.Lang.Arrays.Update.{arp_array_get-arp_array_set, Within, Holds}
use shahi_n_kernel.Lang.Arrays.{
  arp_array_get, all_positive, arp_array_set, int_product, arp_array_init, Array,
}
use shahi_n_kernel.Prelude.{sym, ◌≢◌, ◌≡◌, arith, List, refl, none, some, ℕ, [], ◌∷◌}
use shahi_n_kernel.Lang.Value.{Value, int_value, unknown_type}

-- Six items in two rows of three.
abbrev six_items : List (Value integer_floats)
six_items =
    int_value (pos 1)
    ∷ int_value (pos 2)
    ∷ int_value (pos 3)
    ∷ int_value (pos 4)
    ∷ int_value (pos 5)
    ∷ int_value (pos 6)
    ∷ []

abbrev two_rows : Array integer_floats
two_rows = record {
  elem_type = unknown_type;
  dims = ints (2 ∷ 3 ∷ []);
  total = pos 6;
  items = some six_items;
  refcount = pos 1;
}

two_rows-Holds : Holds integer_floats (2 ∷ 3 ∷ []) six_items two_rows
unfolding Holds volume
two_rows-Holds = (refl, refl, refl, omega arith, omega arith)

last_of_first_row : Within (2 ∷ 3 ∷ []) (0 ∷ 2 ∷ [])
unfolding Within
last_of_first_row = (omega arith, (omega arith, tt))

arp_array_get-arp_array_set_example :
    (b : Array integer_floats) × (arp_array_set integer_floats two_rows
        (ints (0 ∷ 2 ∷ []))
        (int_value (pos 7))
      ≡ some b)
    × (arp_array_get integer_floats b (ints (0 ∷ 2 ∷ [])) ≡ some (int_value (pos 7)))
    × ((other : List ℕ)
        → other ≢ 0 ∷ 2 ∷ []
        → arp_array_get integer_floats b (ints other)
          ≡ arp_array_get integer_floats two_rows (ints other))
arp_array_get-arp_array_set_example =
    arp_array_get-arp_array_set integer_floats (2 ∷ 3 ∷ []) (0 ∷ 2 ∷ []) six_items two_rows
      (int_value (pos 7)) two_rows-Holds last_of_first_row

product_of_two_rows : volume (2 ∷ 3 ∷ []) ≡ 6
unfolding volume
product_of_two_rows = refl

arp_array_init-Holds_example :
    (b : Array integer_floats) × (arp_array_init integer_floats two_rows
        (ints (2 ∷ 3 ∷ []))
        six_items
      ≡ some b)
    × Holds integer_floats (2 ∷ 3 ∷ []) six_items b
arp_array_init-Holds_example =
    arp_array_init-Holds integer_floats (2 ∷ 3 ∷ []) six_items two_rows (omega arith) (omega arith)
      (omega (arith, product_of_two_rows)) (omega (arith, product_of_two_rows))
      (sym product_of_two_rows)

-- 65536 times 65536 is 0 in 32 bits, so these dimensions are taken with no items.
overflowing_dimensions :
    Option.map
      (λ (b : Array integer_floats). b.items)
      (arp_array_init integer_floats two_rows (ints (65536 ∷ 65536 ∷ [])) [])
    ≡ some none
unfolding arp_array_init int_product all_positive int32 signed32 pattern64 ◌*ℤ◌ is_nonpos
overflowing_dimensions = refl
