-- ===== src/Lang/Arrays.antt =====
-- Arrays of values: cells with their dimensions, their flat items and a count of the references.
-- An operation gives the changed cell, or nothing where it refuses.
use shahi_n_kernel.Prelude.Find.{get_elem?}
use shahi_n_kernel.Lang.Expression.{and_then}
use shahi_n_kernel.Prelude.Int.{
  int32, negsuc, pos_part, ltb_ℤ, ◌*ℤ◌, is_nonpos, pattern64, pos, eqb_ℤ, is_neg, signed32, ◌-ℤ◌,
  ◌+ℤ◌, ℤ,
}
pub mod Laws
pub mod Update
pub mod Init
mod Tests
use mathlib.Core.Option
use shahi_n_kernel.Prelude.{
  get_or, ltb, set, leb, ◌&&◌, ◌||◌, none, not, some, ◌==◌, [], true, zero, if◌then◌else◌, length,
  Bool, ◌∷◌, List, ℕ, Option,
}
use shahi_n_kernel.Lang.Value.{ValueType, Floats, Value, unknown}

pub record Array (fs : Floats) : Type 0 where
  pub elem_type : ValueType
  pub dims : List ℤ
  pub total : ℤ
  pub items : Option (List (Value fs))
  pub refcount : ℤ

-- `off * dims[i] + idx[i]` for each dimension; an index outside of its dimension refuses.
unfoldable pub flat_from : (off : ℤ) (dims idx : List ℤ) → Option ℤ
flat_from off [] [] = some off
flat_from off (d ∷ dims) (x ∷ idx) =
    let more = flat_from (int32 (off *ℤ d +ℤ x)) dims idx in
    if is_neg x || not (ltb_ℤ x d) then none else more
flat_from off dims idx = none

unfoldable pub int_product : (acc : ℤ) (dims : List ℤ) → ℤ
int_product acc [] = acc
int_product acc (d ∷ dims) = int_product (int32 (acc *ℤ d)) dims

unfoldable pub all_positive : List ℤ → Bool
all_positive [] = true
all_positive (d ∷ dims) = not (is_nonpos d) && all_positive dims

module _ (fs : Floats) where
  unfoldable pub arp_array_create : ValueType → Array fs
  arp_array_create t = record {
    elem_type = t;
    dims = [];
    total = pos 0;
    items = none;
    refcount = pos 1;
  }

  unfoldable pub arp_array_dim_count : Array fs → ℕ
  arp_array_dim_count a = length a.dims

  unfoldable pub arp_array_dim_size : Array fs → (dim : ℤ) → ℤ
  arp_array_dim_size a dim =
      if is_neg dim || leb (length a.dims) (pos_part dim)
      then negsuc 0
      else get_or a.dims (pos_part dim) (negsuc 0)

  unfoldable pub array_flat_index : Array fs → List ℤ → Option ℤ
  array_flat_index a idx =
      if length idx == length a.dims then flat_from (pos 0) a.dims idx else none

  unfoldable pub with_items : Array fs → (total : ℤ) → Option (List (Value fs)) → Array fs
  with_items a total items = record {
    elem_type = a.elem_type;
    dims = a.dims;
    total = total;
    items = items;
    refcount = a.refcount;
  }

  -- The items of a cell; behind a missing block there is nothing.
  unfoldable pub items_of : Array fs → List (Value fs)
  items_of a = elim a.items [ none ↦ [] | some xs ↦ xs ]

  -- An item at an index that is not negative.
  unfoldable pub item_at : Array fs → ℤ → Option (Value fs)
  item_at a off = if is_neg off then none else get_elem? (items_of a) (pos_part off)

  unfoldable pub store_item : Array fs → Value fs → ℤ → Option (Array fs)
  store_item a v off =
      if is_neg off
      then none
      else some (with_items a a.total (some (set (items_of a) (pos_part off) v)))

  unfoldable pub arp_array_set : Array fs → List ℤ → Value fs → Option (Array fs)
  arp_array_set a idx v = and_then (array_flat_index a idx) (store_item a v)

  unfoldable pub arp_array_get : Array fs → List ℤ → Option (Value fs)
  arp_array_get a idx = and_then (array_flat_index a idx) (item_at a)

  -- All of the values, in the places of the items.
  unfoldable pub arp_array_fill_from_literal : Array fs → List (Value fs) → Option (Array fs)
  arp_array_fill_from_literal a values =
      if eqb_ℤ (pos (length values)) a.total
      then some (with_items a a.total (some values))
      else none

  unfoldable pub arp_array_init : Array fs → List ℤ → List (Value fs) → Option (Array fs)
  arp_array_init a dims values =
      if (length dims == 0) || ltb 8 (length dims)
      then none
      else if not (all_positive dims)
      then none
      else if not (eqb_ℤ (int_product (pos 1) dims) (pos (length values)))
      then none
      else some (record {
        elem_type = a.elem_type;
        dims = dims;
        total = pos (length values);
        items = if length values == 0 then none else some values;
        refcount = a.refcount;
      })

  unfoldable pub with_refcount : Array fs → ℤ → Array fs
  with_refcount a n = record {
    elem_type = a.elem_type;
    dims = a.dims;
    total = a.total;
    items = a.items;
    refcount = n;
  }

  unfoldable pub arp_array_retain : Array fs → Array fs
  arp_array_retain a = with_refcount a (a.refcount +ℤ pos 1)

  -- The cell with one reference less, or nothing once the last is gone and it is freed.
  unfoldable pub arp_array_release : Array fs → Option (Array fs)
  arp_array_release a =
      let a' = with_refcount a (a.refcount -ℤ pos 1) in
      if is_nonpos a'.refcount then none else some a'
