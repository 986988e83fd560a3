-- ===== src/Lang/Arrays/Init.antt =====
-- A new array has the items that it was given, as many as its dimensions ask for.
use shahi_n_kernel.Lang.Arrays.Update.{length-ints, Holds}
use shahi_n_kernel.Lang.Arrays.Laws.{ints, volume}
use shahi_n_kernel.Lang.Value.{Value, Floats}
use shahi_n_kernel.Lang.Arrays.{Array, arp_array_init, all_positive, int_product}
use shahi_n_kernel.Prelude.Int.{eqb_ℤ, int32-pos, pos, int32, is_nonpos, ◌*ℤ◌}
use shahi_n_kernel.Prelude.{
  ltb, ◌||◌, ◌==◌, ◌≤◌, zero, suc, ◌∙◌, length, ap, arith, ◌≡◌, ◌^◌, List, ◌<◌, ◌*◌, refl, some, ℕ,
  [], ◌∷◌, true, false,
}

product : (a d : ℕ) → a * d < 2 ^ 31 → int32 (pos a *ℤ pos d) ≡ pos (a * d)
unfolding ◌*ℤ◌
product a d h =
    let whole : pos a *ℤ pos d ≡ pos (a * d) = ground arith in rw whole (int32-pos (a * d) h)

int_product-volume :
    (a : ℕ) (dims : List ℕ)
    → 0 < volume dims
    → a * volume dims < 2 ^ 31
    → int_product (pos a) (ints dims) ≡ pos (a * volume dims)
unfolding int_product volume
int_product-volume a [] h l = ap (λ k. pos k) (omega arith)
int_product-volume a (d ∷ dims) h l =
    let pos_rest : 0 < volume dims = grind (arith, h) in
    let here : a * d < 2 ^ 31 = grind (arith, l, pos_rest) in
    let same : a * d * volume dims ≡ a * (d * volume dims) = omega arith in
    rw (int_product, product a d here)
      (int_product-volume (a * d) dims pos_rest (omega (arith, l, same)) ∙ ap (λ k. pos k) same)

all_positive-volume : (dims : List ℕ) → 0 < volume dims → all_positive (ints dims) ≡ true
unfolding all_positive volume is_nonpos
all_positive-volume [] h = refl
all_positive-volume (zero ∷ dims) h = absurd (omega (arith, h))
all_positive-volume (suc d ∷ dims) h = all_positive-volume dims (grind (arith, h))

module _ (fs : Floats) where
  -- An array with one to eight dimensions, none of them 0 and their product below 2^31, is made of
  -- just as many items as that product, and holds them.
  pub arp_array_init-Holds :
      (dims : List ℕ) (items : List (Value fs)) (a : Array fs)
      → 0 < length dims
      → length dims ≤ 8
      → 0 < volume dims
      → volume dims < 2 ^ 31
      → length items ≡ volume dims
      → (b : Array fs) × (arp_array_init fs a (ints dims) items ≡ some b) × Holds fs dims items b
  unfolding arp_array_init Holds
  arp_array_init-Holds dims items a h l v w e =
      let counted : ((length (ints dims) == 0) || ltb 8 (length (ints dims))) ≡ false =
        rw (length-ints dims) (ground (arith, h, l)) in
      let many : int_product (pos 1) (ints dims) ≡ pos (1 * volume dims) =
        int_product-volume 1 dims v (omega (arith, w)) in
      let enough : eqb_ℤ (pos (1 * volume dims)) (pos (length items)) ≡ true = ground (arith, e) in
      let some_items : (length items == 0) ≡ false = ground (arith, e, v) in
      (
        record {
          elem_type = a.elem_type;
          dims = ints dims;
          total = pos (length items);
          items = some items;
          refcount = a.refcount;
        },
        rw (counted, all_positive-volume dims v, many, enough) (rw some_items refl),
        (refl, refl, e, v, omega (arith, w)),
      )
