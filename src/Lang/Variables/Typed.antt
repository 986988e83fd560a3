-- ===== src/Lang/Variables/Typed.antt =====
-- Every variable keeps a value of the type that it was declared with.
use shahi_n_kernel.Lang.Variables.Readings.{is_builtin_variable}
use shahi_n_kernel.Lang.Value.Laws.{coerce_typed}
use mathlib.Core.Option.{some-injective}
use shahi_n_kernel.Lang.Value.Coerce.{coerce, is_assignable}
use shahi_n_kernel.Prelude.Find.{change-found, get_elem?, change}
use shahi_n_kernel.Lang.Variables.Runs.{assign, declare, Command, execute}
use shahi_n_kernel.Lang.Variables.{
  type_at, give, find_variable, store_in, store_or_fail, variable_set_value, with_variables,
  variable_declare, alloc_variable_slot, set_slot, Context, slot_for, fresh_variable, converted,
  Variable,
}
use shahi_n_kernel.Lang.Value.{◌is◌, type_index, type_of, unknown_type, Value, ValueType, Floats}
use mathlib.Core.Option
use shahi_n_kernel.Prelude.{
  All-append_one, All-set, ◌∙◌, ap, ◌||◌, sym, ◌==◌, length, Option-cases, arith, inr, inl,
  Bool-cases, ◌≡◌, All, ◌≢◌, List, refl, some, ℕ, true, false,
}

module _ (fs : Floats) where
  -- A variable that was declared has a value of its type.
  unfoldable pub WellTyped : Variable fs → Type 0
  WellTyped v = v.declared_type ≢ unknown_type → type_of fs v.value ≡ v.declared_type

  abbrev pub AreTyped : List (Variable fs) → Type 0
  AreTyped vs = All WellTyped vs

  -- What an assignment stores has the type of the variable.
  converted-typed :
      (t : ValueType) (v w : Value fs)
      → t ≢ unknown_type
      → converted fs t v ≡ some w
      → type_of fs w ≡ t
  unfolding converted
  converted-typed t v w known e = elim (Bool-cases (is_assignable t (type_of fs v))) [
    | inl a ↦
        let typed = coerce_typed fs t v known a in
        let stored : coerce fs v t ≡ some w = ground (arith, e, a) in
        some-injective (type_of fs w) t (sym (ap (Option.map (type_of fs)) stored) ∙ typed)
    | inr n ↦ absurd (ground (arith, e, n))
  ]

  is_unknown : (t : ValueType) → (t is unknown_type) ≡ true → t ≡ unknown_type
  unfolding type_index
  is_unknown t h = ground (arith, h)

  is_known : (t : ValueType) → (t is unknown_type) ≡ false → t ≢ unknown_type
  unfolding type_index
  is_known t h = ground (arith, h)

  module _ (M : Type 0) where
    change-typed :
        (vs : List (Variable fs)) (i : ℕ) (f : Variable fs → Variable fs)
        → ((v : Variable fs) → WellTyped (f v))
        → AreTyped vs
        → AreTyped (change vs i f)
    unfolding change
    change-typed vs i f good h = elim (Option-cases (get_elem? vs i)) [
      | inl n ↦ rw (change, n) h
      | inr (v, e) ↦ rw (change-found vs i f v e) (All-set WellTyped vs i (f v) h (good v))
    ]

    fresh-typed : (name : List ℕ) → WellTyped (fresh_variable fs name)
    unfolding WellTyped fresh_variable
    fresh-typed name known = absurd (known refl)

    slot_for-typed :
        (ctx : Context fs M) (name : List ℕ)
        → AreTyped ctx.variables
        → AreTyped (slot_for fs M ctx name).1.variables
    unfolding slot_for alloc_variable_slot with_variables
    slot_for-typed ctx name h = elim (Option-cases (find_variable fs M ctx name)) [
      | inl n ↦
          rw (slot_for, n)
            (All-append_one WellTyped ctx.variables (fresh_variable fs name) h (fresh-typed name))
      | inr (i, e) ↦ rw (slot_for, e) h
    ]

    store_or_fail-typed :
        (i : ℕ) (ctx : Context fs M) (t : ValueType) (v : Value fs)
        → t ≢ unknown_type
        → AreTyped ctx.variables
        → AreTyped (store_or_fail fs M (i, ctx) t (converted fs t v)).1.variables
    unfolding store_or_fail store_in with_variables WellTyped give
    store_or_fail-typed i ctx t v known h = elim (Option-cases (converted fs t v)) [
      | inl n ↦ rw n h
      | inr (w, e) ↦
          let typed = converted-typed t v w known e in
          rw e (change-typed ctx.variables i (give fs w t) (λ u k. typed) h)
    ]

    set_slot-typed :
        (i : ℕ) (ctx : Context fs M) (v : Value fs)
        → AreTyped ctx.variables
        → AreTyped (set_slot fs M v (i, ctx)).1.variables
    unfolding set_slot store_in with_variables WellTyped give type_index
    set_slot-typed i ctx v h = elim (Bool-cases (type_at fs M ctx i is unknown_type)) [
      | inl u ↦
          let none_known = λ (k : type_at fs M ctx i ≢ unknown_type).
            absurd (k (is_unknown (type_at fs M ctx i) u)) in
          rw u
            (change-typed ctx.variables i (give fs v (type_at fs M ctx i)) (λ w k. none_known k) h)
      | inr k ↦
          rw k
            (store_or_fail-typed i ctx (type_at fs M ctx i) v (is_known (type_at fs M ctx i) k) h)
    ]

    -- Whatever a declaration or an assignment does, it leaves every declared variable with a value of
    -- its type, if all had one.
    pub execute-AreTyped :
        (c : Command fs) (ctx : Context fs M)
        → AreTyped ctx.variables
        → AreTyped (execute fs M c ctx).1.variables
    unfolding execute variable_declare variable_set_value
    execute-AreTyped (declare name t v) ctx h =
        elim (Bool-cases ((length name == 0) || is_builtin_variable name || (t is unknown_type))) [
          | inl a ↦ rw a h
          | inr a ↦
              let known = is_known t (ground (arith, a)) in
              let (i, c) = slot_for fs M ctx name in
              rw a (store_or_fail-typed i c t v known (slot_for-typed ctx name h))
        ]
    execute-AreTyped (assign name v) ctx h =
        elim (Bool-cases ((length name == 0) || is_builtin_variable name)) [
          | inl a ↦ rw a h
          | inr a ↦
              let (i, c) = slot_for fs M ctx name in
              rw a (set_slot-typed i c v (slot_for-typed ctx name h))
        ]
