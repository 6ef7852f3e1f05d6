-- ===== src/SoftInstanceof/Peeled.antt =====
-- Where the loop of `instanceof_array` that skips arrays of arrays ends.
use la_tte.Common.{
  ℕ, zero, suc, ◌+◌, ◌<◌, ◌≡◌, ◌∙◌, ◌⊎◌, inl, inr, true, false, ◌&&◌, Option, some, arith,
}
use la_tte.ClassHierarchy.{Class}
use la_tte.SoftInstanceof.{skip_arrays}

module _ (class : ℕ → Class) where
  -- What `lookupArray` of runtime/classMethod.c writes into an array class: its element type is no
  -- array, and its component type is the element type, or an array of one dimension less.
  pub record ArraysBuilt (object_class : ℕ) : Type 0 where
    pub object_no_array : (class object_class).is_array ≡ false
    pub object_no_primitive : (class object_class).is_primitive ≡ false
    pub element :
        (a : ℕ) → (class a).is_array ≡ true → (class (class a).element_type).is_array ≡ false
    pub component :
        (a : ℕ)
        → (class a).is_array ≡ true
        → (((class a).dimension ≡ 1) × ((class a).component_type ≡ (class a).element_type))
          ⊎ (((class (class a).component_type).is_array ≡ true)
              × ((class a).dimension ≡ (class (class a).component_type).dimension + 1)
              × ((class (class a).component_type).element_type ≡ (class a).element_type))

  -- The pair of classes at which the loop ends, by the dimensions of the pair it starts with.
  pub data Skipped (c oc : ℕ) : ℕ → ℕ → Type 0 where
    level :
        {c' oc' : ℕ}
        → (class c).dimension ≡ (class oc).dimension
        → c' ≡ (class c).element_type
        → oc' ≡ (class oc).element_type
        → Skipped c oc c' oc'
    shallow :
        {c' oc' : ℕ}
        → (class c).dimension < (class oc).dimension
        → c' ≡ (class c).element_type
        → (class oc').is_array ≡ true
        → Skipped c oc c' oc'
    deep :
        {c' oc' : ℕ}
        → (class oc).dimension < (class c).dimension
        → (class c').is_array ≡ true
        → Skipped c oc c' oc'

  abbrev pub EndsAt : Option (ℕ × ℕ) → ℕ → ℕ → Type 0
  EndsAt o c oc = (c' : ℕ) × (oc' : ℕ) × (o ≡ some (c', oc')) × Skipped c oc c' oc'

  again :
      (fuel c oc : ℕ)
      → (class c).is_array ≡ true
      → (class oc).is_array ≡ true
      → skip_arrays class (suc fuel) c oc
        ≡ skip_arrays class fuel (class c).component_type (class oc).component_type
  unfolding skip_arrays
  again fuel c oc p q = ground (arith, p, q)

  pub stop :
      (fuel c oc : ℕ)
      → (class c).is_array && (class oc).is_array ≡ false
      → skip_arrays class (suc fuel) c oc ≡ some (c, oc)
  unfolding skip_arrays
  stop fuel c oc p = ground (arith, p)

  module _ {object_class : ℕ} (built : ArraysBuilt object_class) where
    dimension_pos : (a : ℕ) → (class a).is_array ≡ true → 0 < (class a).dimension
    dimension_pos a p = elim (built.component a p) [
      | inl h ↦ omega (arith, h.0)
      | inr h ↦ omega (arith, h.1)
    ]

    pub skip_arrays-EndsAt :
        (fuel c oc : ℕ)
        → (class c).is_array ≡ true
        → (class oc).is_array ≡ true
        → (class c).dimension < fuel
        → EndsAt (skip_arrays class fuel c oc) c oc
    skip_arrays-EndsAt zero c oc p q h = absurd (omega arith)
    skip_arrays-EndsAt (suc zero) c oc p q h = absurd (omega (arith, dimension_pos c p))
    skip_arrays-EndsAt (suc (suc fuel)) c oc p q h = elim (built.component c p) [
      | inl (d, e) ↦ elim (built.component oc q) [
        | inl (d', e') ↦ (
          (class c).component_type,
          (class oc).component_type,
          again (suc fuel) c oc p q
              ∙ stop fuel (class c).component_type (class oc).component_type
                  (rw e (ground (arith, built.element c p))),
          level (omega arith) e e',
        )
        | inr (p', d', e') ↦ (
          (class c).component_type,
          (class oc).component_type,
          again (suc fuel) c oc p q
              ∙ stop fuel (class c).component_type (class oc).component_type
                  (rw e (ground (arith, built.element c p))),
          shallow (omega (arith, dimension_pos (class oc).component_type p')) e p',
        )
      ]
      | inr (pc, dc, ec) ↦ elim (built.component oc q) [
        | inl (d', e') ↦ (
          (class c).component_type,
          (class oc).component_type,
          again (suc fuel) c oc p q
              ∙ stop fuel (class c).component_type (class oc).component_type
                  (rw e' (ground (arith, built.element oc q))),
          deep (omega (arith, dimension_pos (class c).component_type pc)) pc,
        )
        | inr (p', d', e') ↦
            let (c', oc', e, s) =
              skip_arrays-EndsAt (suc fuel) (class c).component_type (class oc).component_type pc p'
                (omega arith) in
            (
              c',
              oc',
              again (suc fuel) c oc p q ∙ e,
              elim s [
                | level d x y ↦ level (omega arith) (x ∙ ec) (y ∙ e')
                | shallow d x y ↦ shallow (omega arith) (x ∙ ec) y
                | deep d x ↦ deep (omega arith) x
              ],
            )
      ]
    ]
