-- ===== src/Lang/Variables/Refines.antt =====
-- The operations on variables against the abstract store.
use shahi_n_kernel.Prelude.Find.{
  last_item, change-last, find_index-some, change-found, find_index-none, find_index, find,
  get_elem?,
}
use shahi_n_kernel.Lang.Variables.{
  set_slot, type_at, fresh_variable, give, named, with_variables, alloc_variable_slot, store_in,
  find_variable, Variable, converted, slot_for, store_or_fail, Context,
}
use shahi_n_kernel.Lang.Variables.Store.{
  view_of-set, found_slot, view_of-append, cell_of, slot, view_of, update, Store,
}
use shahi_n_kernel.Lang.Value.{type_index, ◌is◌, unknown_type, unknown, Value, ValueType, Floats}
use shahi_n_kernel.Prelude.{
  Bool-cases, length, sym, set, ◌∙◌, inr, inl, ap, Option-cases, ◌⊎◌, ◌++◌, ◌≡◌, if◌then◌else◌,
  List, Bool, refl, none, some, Option, ℕ, [], ◌∷◌, true, false,
}

module _ (fs : Floats) where
  -- A declaration keeps the converted value and the type. If the value does not suit the type, a name
  -- that was not there stays behind, with no value and no type.
  unfoldable pub declared : Store fs → List ℕ → ValueType → Option (Value fs) → Bool × Store fs
  declared store name t (some w) = (true, update fs store name (w, t))
  declared store name t none = elim (store name) [
    | some cell ↦ (false, store)
    | none ↦ (false, update fs store name (unknown, unknown_type))
  ]

  -- An assignment converts to the type that was declared; without one, it takes any value.
  unfoldable pub assigned : Store fs → List ℕ → Value fs → Bool × Store fs
  assigned store name v = elim (store name) [
    | none ↦ (true, update fs store name (v, unknown_type))
    | some (old, t) ↦
        if t is unknown_type
        then (true, update fs store name (v, t))
        else declared store name t (converted fs t v)
  ]

  module _ (M : Type 0) where
    -- What an operation answers, and the store that it leaves.
    abbrev pub outcome : Bool × Context fs M → Bool × Store fs
    outcome (ok, ctx) = (ok, view_of fs ctx.variables)

    module _ (ctx : Context fs M) (name : List ℕ) where
      abbrev before : Store fs
      before = view_of fs ctx.variables

      -- A variable of the name, at its place.
      abbrev Found : ℕ → Variable fs → Type 0
      Found i v =
          (find_variable fs M ctx name ≡ some i)
          × (get_elem? ctx.variables i ≡ some v)
          × (v ≡ slot fs name (cell_of fs v))
          × (before name ≡ some (cell_of fs v))

      abbrev Missing : Type 0
      Missing =
          (find_variable fs M ctx name ≡ none)
          × (find (named fs name) ctx.variables ≡ none)
          × (before name ≡ none)

      -- Either a variable has the name, or none has.
      places : ((i : ℕ) × (v : Variable fs) × Found i v) ⊎ Missing
      unfolding find_variable
      places = elim (Option-cases (find_index (named fs name) ctx.variables)) [
        | inl n ↦
            let gone = find_index-none (named fs name) ctx.variables n in
            inr (n, gone, rw gone refl)
        | inr (i, e) ↦
            let (v, at_i, named_so, found) = find_index-some (named fs name) ctx.variables i e in
            inl (i, v, (e, at_i, found_slot fs name v named_so, rw found refl))
      ]

      store_in-Found :
          (i : ℕ) (v : Variable fs) (w : Value fs) (t : ValueType)
          → Found i v
          → view_of fs (store_in fs M ctx i w t).variables ≡ update fs before name (w, t)
      unfolding store_in with_variables give find_variable
      store_in-Found i v w t h j x =
          (ap (λ vs. view_of fs vs x) (change-found ctx.variables i (give fs w t) v h.1)
              ∙ ap (λ u. view_of fs (set ctx.variables i (give fs w t u)) x) h.2
              ∙ view_of-set fs ctx.variables i name (w, t) h.0 x)
            j

      stored_new :
          (w : Value fs) (t : ValueType)
          → Missing
          → view_of fs (ctx.variables ++ slot fs name (w, t) ∷ []) ≡ update fs before name (w, t)
      stored_new w t h j x = view_of-append fs ctx.variables name (w, t) h.1 x j

      slot_for-found :
          (i : ℕ) → find_variable fs M ctx name ≡ some i → slot_for fs M ctx name ≡ (i, ctx)
      unfolding slot_for
      slot_for-found i h = rw (slot_for, h) refl

      slot_for-missing :
          find_variable fs M ctx name ≡ none
          → slot_for fs M ctx name ≡ alloc_variable_slot fs M ctx name
      unfolding slot_for alloc_variable_slot
      slot_for-missing h = rw (slot_for, h) refl

      pub declare-declared :
          (t : ValueType) (w : Option (Value fs))
          → outcome (store_or_fail fs M (slot_for fs M ctx name) t w) ≡ declared before name t w
      unfolding alloc_variable_slot with_variables store_or_fail declared store_in fresh_variable
          give
      declare-declared t none = elim places [
        | inl (i, v, h) ↦ rw (slot_for-found i h.0, declared, h.3) refl
        | inr h ↦
            rw (slot_for-missing h.0, declared, h.2)
              (ap (λ s. (false, s)) (stored_new unknown unknown_type h))
      ]
      declare-declared t (some w) = elim places [
        | inl (i, v, h) ↦ rw (slot_for-found i h.0) (ap (λ s. (true, s)) (store_in-Found i v w t h))
        | inr h ↦
            rw
              (
                slot_for-missing h.0,
                change-last ctx.variables (fresh_variable fs name) (give fs w t),
              )
              (ap (λ s. (true, s)) (stored_new w t h))
      ]

      type_at-found :
          (i : ℕ) (v : Variable fs)
          → get_elem? ctx.variables i ≡ some v
          → type_at fs M ctx i ≡ v.declared_type
      unfolding type_at
      type_at-found i v h = rw (type_at, h) refl

      set_slot-known :
          (v : Value fs) (i : ℕ) (t : ValueType)
          → type_at fs M ctx i ≡ t
          → (t is unknown_type) ≡ false
          → slot_for fs M ctx name ≡ (i, ctx)
          → outcome (set_slot fs M v (slot_for fs M ctx name))
            ≡ declared before name t (converted fs t v)
      unfolding set_slot
      set_slot-known v i t at_i known e =
          rw (e, at_i, known)
            (ap (λ r. outcome (store_or_fail fs M r t (converted fs t v))) (sym e)
              ∙ declare-declared t (converted fs t v))

      type_at-new :
          type_at fs M (alloc_variable_slot fs M ctx name).1 (length ctx.variables) ≡ unknown_type
      unfolding type_at alloc_variable_slot with_variables fresh_variable
      type_at-new = rw (type_at, last_item ctx.variables (fresh_variable fs name)) refl

      -- An assignment, whether the name is there or not.
      pub set_slot-assigned :
          (v : Value fs)
          → outcome (set_slot fs M v (slot_for fs M ctx name)) ≡ assigned before name v
      unfolding set_slot alloc_variable_slot with_variables store_in fresh_variable give type_index
          assigned
      set_slot-assigned v = elim places [
        | inl (i, u, h) ↦ elim (Bool-cases (u.declared_type is unknown_type)) [
          | inl t ↦
              rw (slot_for-found i h.0, type_at-found i u h.1, assigned, h.3, t)
                (ap (λ s. (true, s)) (store_in-Found i u v u.declared_type h))
          | inr f ↦
              rw (assigned, h.3, f)
                (set_slot-known v i u.declared_type (type_at-found i u h.1) f
                  (slot_for-found i h.0))
        ]
        | inr h ↦
            rw
              (
                slot_for-missing h.0,
                type_at-new,
                assigned,
                h.2,
                change-last ctx.variables (fresh_variable fs name) (give fs v unknown_type),
              )
              (ap (λ s. (true, s)) (stored_new v unknown_type h))
      ]
