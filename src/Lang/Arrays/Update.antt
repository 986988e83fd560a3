-- ===== src/Lang/Arrays/Update.antt =====
-- Writing an item of an array, and reading it.
use shahi_n_kernel.Prelude.Find.{get_elem?-set_other, get_elem?-set, get_elem?}
use shahi_n_kernel.Lang.Expression.{and_then}
use shahi_n_kernel.Prelude.Int.{pos}
use shahi_n_kernel.Lang.Arrays.{
  with_items, items_of, store_item, item_at, Array, arp_array_set, arp_array_get, array_flat_index,
}
use shahi_n_kernel.Lang.Value.{Value, Floats}
use shahi_n_kernel.Lang.Arrays.Laws.{
  place-injective, flat_from-place, place-lt, volume, ints, place,
}
use mathlib.Core.Option
use shahi_n_kernel.Prelude.{
  sym, inr, ◌∙◌, inl, length-set, Option-cases, Bool-cases, ◌≢◌, ◌^◌, set, ◌≤◌, ltb, ◌+◌, ◌*◌, ◌==◌,
  arith, length, ◌≡◌, ◌<◌, List, refl, none, some, ℕ, [], ◌∷◌, true, false,
}

-- An index for each dimension, below it.
unfoldable pub Within : (dims idx : List ℕ) → Type 0
Within [] [] = Unit
Within (d ∷ dims) (x ∷ idx) = (x < d) × Within dims idx
Within dims idx = ⊥

place-some :
    (off : ℕ) (dims idx : List ℕ) → Within dims idx → (k : ℕ) × (place off dims idx ≡ some k)
unfolding place Within
place-some off [] [] w = (off, refl)
place-some off [] (x ∷ idx) w = absurd w
place-some off (d ∷ dims) [] w = absurd w
place-some off (d ∷ dims) (x ∷ idx) w =
    let (k, e) = place-some (off * d + x) dims idx w.1 in
    let t : ltb x d ≡ true = ground (arith, w.0) in (k, rw t e)

place-length :
    (off : ℕ) (dims idx : List ℕ) → (length idx == length dims) ≡ false → place off dims idx ≡ none
unfolding place
place-length off [] [] h = absurd (ground (arith, h))
place-length off [] (x ∷ idx) h = refl
place-length off (d ∷ dims) [] h = refl
place-length off (d ∷ dims) (x ∷ idx) h =
    let more = place-length (off * d + x) dims idx (ground (arith, h)) in rw more (ground arith)

pub length-ints : (xs : List ℕ) → length (ints xs) ≡ length xs
length-ints [] = refl
length-ints (x ∷ xs) = omega (arith, length-ints xs)

module _ (fs : Floats) where
  -- An array of these dimensions with these items, as many as the dimensions ask for.
  unfoldable pub Holds : (dims : List ℕ) (items : List (Value fs)) → Array fs → Type 0
  Holds dims items a =
      (a.dims ≡ ints dims)
      × (a.items ≡ some items)
      × (length items ≡ volume dims)
      × (0 < volume dims)
      × (volume dims ≤ 2 ^ 31)

  same_elsewhere :
      (dims idx other : List ℕ) (items : List (Value fs)) (v : Value fs) (k : ℕ)
      → place 0 dims idx ≡ some k
      → other ≢ idx
      → and_then (place 0 dims other) (get_elem? (set items k v))
        ≡ and_then (place 0 dims other) (get_elem? items)
  unfolding and_then
  same_elsewhere dims idx other items v k at_k differs = elim (Option-cases (place 0 dims other)) [
    | inl n ↦ rw n refl
    | inr (j, e) ↦
        let apart =
          λ (q : k ≡ j). differs (place-injective 0 0 dims other idx j e (rw (sym q) at_k)).1 in
        rw e (get_elem?-set_other items k j v apart)
  ]

  array_flat_index-place :
      (dims idx : List ℕ) (items : List (Value fs)) (a : Array fs)
      → Holds dims items a
      → array_flat_index fs a (ints idx) ≡ Option.map (λ k. pos k) (place 0 dims idx)
  unfolding array_flat_index Holds
  array_flat_index-place dims idx items a h = elim (Bool-cases (length idx == length dims)) [
    | inl t ↦
        let t0 : (length (ints idx) == length (ints dims)) ≡ true =
          rw (length-ints idx, length-ints dims) t in
        rw (h.0, t0) (flat_from-place 0 dims idx h.3 (omega (arith, h.4)))
    | inr f ↦
        let f0 : (length (ints idx) == length (ints dims)) ≡ false =
          rw (length-ints idx, length-ints dims) f in
        rw (h.0, f0, place-length 0 dims idx f) refl
  ]

  get-place :
      (dims idx : List ℕ) (items : List (Value fs)) (a : Array fs)
      → Holds dims items a
      → arp_array_get fs a (ints idx) ≡ and_then (place 0 dims idx) (get_elem? items)
  unfolding arp_array_get item_at items_of Holds and_then
  get-place dims idx items a h = elim (Option-cases (place 0 dims idx)) [
    | inl n ↦ rw (array_flat_index-place dims idx items a h, n) refl
    | inr (k, e) ↦ rw (array_flat_index-place dims idx items a h, e, h.1) refl
  ]

  set-place :
      (dims idx : List ℕ) (items : List (Value fs)) (a : Array fs) (v : Value fs) (k : ℕ)
      → Holds dims items a
      → place 0 dims idx ≡ some k
      → (b : Array fs) × (arp_array_set fs a (ints idx) v ≡ some b) × Holds dims (set items k v) b
  unfolding arp_array_set store_item items_of with_items Holds and_then
  set-place dims idx items a v k h e = (
    with_items fs a a.total (some (set items k v)),
    rw (array_flat_index-place dims idx items a h, e, h.1) refl,
    (h.0, refl, length-set items k v ∙ h.2, h.3, h.4),
  )

  -- In an array that has as many items as its dimensions ask for, below 2^31, an item is written at
  -- any index inside, is read there afterwards, and every other index reads as before.
  pub arp_array_get-arp_array_set :
      (dims idx : List ℕ) (items : List (Value fs)) (a : Array fs) (v : Value fs)
      → Holds dims items a
      → Within dims idx
      → (b : Array fs) × (arp_array_set fs a (ints idx) v ≡ some b)
        × (arp_array_get fs b (ints idx) ≡ some v)
        × ((other : List ℕ)
            → other ≢ idx
            → arp_array_get fs b (ints other) ≡ arp_array_get fs a (ints other))
  unfolding and_then Holds
  arp_array_get-arp_array_set dims idx items a v h w =
      let (k, at_k) = place-some 0 dims idx w in
      let (b, written, hb) = set-place dims idx items a v k h at_k in
      let inside = place-lt 0 dims idx k at_k in
      let below : k < length items = omega (arith, inside.1, h.2) in
      (
        b,
        written,
        rw (get-place dims idx (set items k v) b hb, at_k) (get_elem?-set items k v below),
        λ other differs.
            rw (get-place dims other (set items k v) b hb, get-place dims other items a h)
              (same_elsewhere dims idx other items v k at_k differs),
      )
