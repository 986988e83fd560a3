-- ===== src/Lang/Variables/Readings.antt =====
-- The names that the language keeps for readings of the machine, in UTF-8, and what reads each.
use shahi_n_kernel.Prelude.Find.{same_name}
use shahi_n_kernel.Prelude.Int.{pos, ◌*ℤ◌, ℤ}
use shahi_n_kernel.Prelude.{true, some, false, if◌then◌else◌, none, [], Bool, Option, ◌∷◌, List, ℕ}
use shahi_n_kernel.Lang.Value.{ptr_value, Floats, Value, int_value, bool_value}

pub data Reading : Type 0 where
  screen_width screen_height screen_line back_pointer front_pointer place_x place_y motion_x
        motion_y mouse_button mouse_click time_second time_minute time_hour time_day time_month
        time_year :
      Reading

-- The names, in the order in which they are compared.
abbrev pub builtin_names : List (List ℕ × Reading)
builtin_names =
    (
      216 ∷ 185 ∷ 216 ∷ 177 ∷ 216 ∷ 182 ∷ 95 ∷ 216 ∷ 167 ∷ 217 ∷ 132 ∷ 216 ∷ 180 ∷ 216 ∷ 167 ∷ 216
          ∷ 180 ∷ 216 ∷ 169 ∷ [],
      screen_width,
    )
    ∷ (
      216 ∷ 167 ∷ 216 ∷ 177 ∷ 216 ∷ 170 ∷ 217 ∷ 129 ∷ 216 ∷ 167 ∷ 216 ∷ 185 ∷ 95 ∷ 216 ∷ 167 ∷ 217
          ∷ 132 ∷ 216 ∷ 180 ∷ 216 ∷ 167 ∷ 216 ∷ 180 ∷ 216 ∷ 169 ∷ [],
      screen_height,
    )
    ∷ (
      216 ∷ 174 ∷ 216 ∷ 183 ∷ 95 ∷ 216 ∷ 167 ∷ 217 ∷ 132 ∷ 216 ∷ 180 ∷ 216 ∷ 167 ∷ 216 ∷ 180 ∷ 216
          ∷ 169 ∷ [],
      screen_line,
    )
    ∷ (
      217 ∷ 133 ∷ 216 ∷ 164 ∷ 216 ∷ 180 ∷ 216 ∷ 177 ∷ 95 ∷ 216 ∷ 167 ∷ 217 ∷ 132 ∷ 216 ∷ 174 ∷ 217
          ∷ 132 ∷ 217 ∷ 129 ∷ 217 ∷ 138 ∷ 216 ∷ 169 ∷ [],
      back_pointer,
    )
    ∷ (
      217 ∷ 133 ∷ 216 ∷ 164 ∷ 216 ∷ 180 ∷ 216 ∷ 177 ∷ 95 ∷ 216 ∷ 167 ∷ 217 ∷ 132 ∷ 216 ∷ 163 ∷ 217
          ∷ 133 ∷ 216 ∷ 167 ∷ 217 ∷ 133 ∷ 217 ∷ 138 ∷ 216 ∷ 169 ∷ [],
      front_pointer,
    )
    ∷ (217 ∷ 133 ∷ 217 ∷ 136 ∷ 216 ∷ 182 ∷ 216 ∷ 185 ∷ 95 ∷ 216 ∷ 179 ∷ [], place_x)
    ∷ (217 ∷ 133 ∷ 217 ∷ 136 ∷ 216 ∷ 182 ∷ 216 ∷ 185 ∷ 95 ∷ 216 ∷ 181 ∷ [], place_y)
    ∷ (216 ∷ 173 ∷ 216 ∷ 177 ∷ 217 ∷ 131 ∷ 216 ∷ 169 ∷ 95 ∷ 216 ∷ 179 ∷ [], motion_x)
    ∷ (216 ∷ 173 ∷ 216 ∷ 177 ∷ 217 ∷ 131 ∷ 216 ∷ 169 ∷ 95 ∷ 216 ∷ 181 ∷ [], motion_y)
    ∷ (
      216 ∷ 178 ∷ 216 ∷ 177 ∷ 95 ∷ 216 ∷ 167 ∷ 217 ∷ 132 ∷ 217 ∷ 129 ∷ 216 ∷ 163 ∷ 216 ∷ 177 ∷ 216
          ∷ 169 ∷ [],
      mouse_button,
    )
    ∷ (
      217 ∷ 134 ∷ 217 ∷ 130 ∷ 216 ∷ 177 ∷ 216 ∷ 169 ∷ 95 ∷ 216 ∷ 167 ∷ 217 ∷ 132 ∷ 217 ∷ 129 ∷ 216
          ∷ 163 ∷ 216 ∷ 177 ∷ 216 ∷ 169 ∷ [],
      mouse_click,
    )
    ∷ (
      216 ∷ 167 ∷ 217 ∷ 132 ∷ 217 ∷ 136 ∷ 217 ∷ 130 ∷ 216 ∷ 170 ∷ 95 ∷ 216 ∷ 171 ∷ 216 ∷ 167 ∷ 217
          ∷ 134 ∷ 217 ∷ 138 ∷ 216 ∷ 169 ∷ [],
      time_second,
    )
    ∷ (
      216 ∷ 167 ∷ 217 ∷ 132 ∷ 217 ∷ 136 ∷ 217 ∷ 130 ∷ 216 ∷ 170 ∷ 95 ∷ 216 ∷ 175 ∷ 217 ∷ 130 ∷ 217
          ∷ 138 ∷ 217 ∷ 130 ∷ 216 ∷ 169 ∷ [],
      time_minute,
    )
    ∷ (
      216 ∷ 167 ∷ 217 ∷ 132 ∷ 217 ∷ 136 ∷ 217 ∷ 130 ∷ 216 ∷ 170 ∷ 95 ∷ 216 ∷ 179 ∷ 216 ∷ 167 ∷ 216
          ∷ 185 ∷ 216 ∷ 169 ∷ [],
      time_hour,
    )
    ∷ (
      216 ∷ 167 ∷ 217 ∷ 132 ∷ 217 ∷ 136 ∷ 217 ∷ 130 ∷ 216 ∷ 170 ∷ 95 ∷ 217 ∷ 138 ∷ 217 ∷ 136 ∷ 217
          ∷ 133 ∷ [],
      time_day,
    )
    ∷ (
      216 ∷ 167 ∷ 217 ∷ 132 ∷ 217 ∷ 136 ∷ 217 ∷ 130 ∷ 216 ∷ 170 ∷ 95 ∷ 216 ∷ 180 ∷ 217 ∷ 135 ∷ 216
          ∷ 177 ∷ [],
      time_month,
    )
    ∷ (
      216 ∷ 167 ∷ 217 ∷ 132 ∷ 217 ∷ 136 ∷ 217 ∷ 130 ∷ 216 ∷ 170 ∷ 95 ∷ 216 ∷ 179 ∷ 217 ∷ 134 ∷ 216
          ∷ 169 ∷ [],
      time_year,
    )
    ∷ []

unfoldable pub reading_in : List ℕ → List (List ℕ × Reading) → Option Reading
reading_in name [] = none
reading_in name ((known, r) ∷ rest) =
    let later = reading_in name rest in if same_name name known then some r else later

unfoldable pub reading_of : List ℕ → Option Reading
reading_of name = reading_in name builtin_names

unfoldable pub is_builtin_variable : List ℕ → Bool
is_builtin_variable name = elim (reading_of name) [ none ↦ false | some r ↦ true ]

-- What the screen, the mouse and the clock answer; reading the click uses it up.
pub record Devices : Type 1 where
  pub Machine : Type 0
  pub fb_get_width : Machine → ℤ
  pub fb_get_height : Machine → ℤ
  pub fb_get_pitch : Machine → ℤ
  pub back_buffer_ptr : Machine → ℕ
  pub front_buffer_ptr : Machine → ℕ
  pub mouse_x : Machine → ℤ
  pub mouse_y : Machine → ℤ
  pub mouse_dx : Machine → ℤ
  pub mouse_dy : Machine → ℤ
  pub mouse_left : Machine → Bool
  pub consume_click : Machine → Bool × Machine
  pub rtc_get : (field : ℕ) → Machine → ℤ

module _ (fs : Floats) (dev : Devices) where
  unfoldable pub clock : (field : ℕ) → dev.Machine → Value fs × dev.Machine
  clock field m = (int_value (dev.rtc_get field m), m)

  unfoldable pub read_device : Reading → dev.Machine → Value fs × dev.Machine
  read_device screen_width m = (int_value (dev.fb_get_width m), m)
  read_device screen_height m = (int_value (dev.fb_get_height m), m)
  read_device screen_line m = (int_value (dev.fb_get_pitch m *ℤ pos 4), m)
  read_device back_pointer m = (ptr_value (dev.back_buffer_ptr m), m)
  read_device front_pointer m = (ptr_value (dev.front_buffer_ptr m), m)
  read_device place_x m = (int_value (dev.mouse_x m), m)
  read_device place_y m = (int_value (dev.mouse_y m), m)
  read_device motion_x m = (int_value (dev.mouse_dx m), m)
  read_device motion_y m = (int_value (dev.mouse_dy m), m)
  read_device mouse_button m = (bool_value (dev.mouse_left m), m)
  read_device mouse_click m = let (click, m') = dev.consume_click m in (bool_value click, m')
  read_device time_second m = clock 0 m
  read_device time_minute m = clock 1 m
  read_device time_hour m = clock 2 m
  read_device time_day m = clock 3 m
  read_device time_month m = clock 4 m
  read_device time_year m = clock 5 m
