-- ===== src/Lxc/Names.antt =====
-- Vectors of names, as src/lib/lxc.c makes them.
use inter_container_messagin.Base.{
  ℕ, zero, suc, ◌+◌, ◌%◌, ◌^◌, ◌<◌, ◌≡◌, ◌⊎◌, refl, ap, ◌∙◌, Bool, true, Option, none, some, List,
  [], ◌∷◌, ◌++◌, Bytes, ok, length, get_elem?, set, arith, inl, inr, length-set, length-append,
}
use inter_container_messagin.ErrorCode.{success}
use inter_container_messagin.Vector.{
  Slot, desc, Vector, ctor_loop, init_budget, expand_into, expand_pos, expand, increase_obj,
  resized,
}
use inter_container_messagin.Vector.Access.{get_elem?-set}
use inter_container_messagin.Vector.Resize.{
  IsValid, slots_of, start_slots, start_slots_lem, new_bytes, new_bytes-fits,
}
use inter_container_messagin.Lxc.{set_name}

-- A name in a slot, with its NUL
abbrev pub named : Bytes → Slot
named name = desc (some (name ++ (0 ∷ []))) (length name + 1)

abbrev pub no_block : ℕ → Option Bytes
no_block k = none

pub get_elem?-below :
    (ns : List Bytes) (j : ℕ) (name : Bytes) → get_elem? ns j ≡ some name → j < length ns
get_elem?-below [] j name e = cc
get_elem?-below (n ∷ ns) zero name e = omega arith
get_elem?-below (n ∷ ns) (suc j) name e = omega (arith, get_elem?-below ns j name e)

-- A vector that holds these names, in its slots in order.
pub record HoldsNames (room : ℕ → Bool) (names : List Bytes) (v : Vector Bytes) : Type 0 where
  pub valid : IsValid v
  pub counted : v.nr_vector ≡ length names
  pub variable : v.obj_size ≡ 0
  pub constructing : v.ctor ≡ some (set_name room)
  pub held :
      (j : ℕ) (name : Bytes)
      → get_elem? names j ≡ some name
      → get_elem? (slots_of v) j ≡ some (named name)

module _ (room : ℕ → Bool) (ample : (n : ℕ) → room n ≡ true) where
  set_name-named : (slot : Slot) (name : Bytes) → set_name room slot (some name) ≡ named name
  unfolding set_name
  set_name-named slot name = rw (ample (length name + 1))

  module _ (v : Vector Bytes) (name : Bytes) where
    -- The vector with a slot more
    pub added : Vector Bytes
    added = record v {
      budget = some (set (start_slots v no_block 1) v.nr_vector (named name));
      budget_size = new_bytes v no_block 1;
      nr_vector = (v.nr_vector + 1) % 2 ^ 32;
    }

    ctor_loop-named :
        (slots : List Slot)
        → ctor_loop (set_name room) (some name) v.nr_vector 1 slots
          ≡ set slots v.nr_vector (named name)
    unfolding ctor_loop
    ctor_loop-named slots = ap (λ s. set slots v.nr_vector s) (set_name-named _ name)

    pub increase_obj-added :
        IsValid v
        → v.nr_vector + 1 < 2 ^ 27
        → v.obj_size ≡ 0
        → v.ctor ≡ some (set_name room)
        → increase_obj v true no_block (some name) ≡ ok (added, success)
    unfolding expand expand_pos expand_into init_budget added start_slots new_bytes resized
    increase_obj-added valid small variable constructing = ground (
      arith,
      small,
      variable,
      constructing,
      (start_slots_lem v no_block 1 valid small).0,
      new_bytes-fits v no_block 1 small,
      ctor_loop-named (slots_of v),
      ctor_loop-named (resized v (new_bytes v no_block 1)),
    )

  -- A name behind others
  get_elem?-snoc :
      (ns : List Bytes) (x y : Bytes) (j : ℕ)
      → get_elem? (ns ++ (x ∷ [])) j ≡ some y
      → ((j < length ns) × (get_elem? ns j ≡ some y)) ⊎ ((j ≡ length ns) × (x ≡ y))
  get_elem?-snoc [] x y zero e = inr (refl, ground (arith, e))
  get_elem?-snoc [] x y (suc j) e = cc
  get_elem?-snoc (n ∷ ns) x y zero e = inl (omega arith, e)
  get_elem?-snoc (n ∷ ns) x y (suc j) e = elim (get_elem?-snoc ns x y j e) [
    | inl (l, g) ↦ inl (omega arith, g)
    | inr (l, g) ↦ inr (ap suc l, g)
  ]

  pub added-HoldsNames :
      (ns : List Bytes) (v : Vector Bytes) (name : Bytes)
      → HoldsNames room ns v
      → length ns + 1 < 2 ^ 27
      → HoldsNames room (ns ++ (name ∷ [])) (added v name)
  unfolding added
  added-HoldsNames ns v name h small =
      let small' : v.nr_vector + 1 < 2 ^ 27 = omega (arith, h.counted) in
      let (as_long, same) = start_slots_lem v no_block 1 h.valid small' in
      let fits = new_bytes-fits v no_block 1 small' in
      record {
        valid = record {
          sized = length-set (start_slots v no_block 1) v.nr_vector (named name) ∙ as_long;
          fits = omega (
            arith,
            as_long,
            fits,
            length-set (start_slots v no_block 1) v.nr_vector (named name),
          );
        };
        counted = omega (arith, h.counted, length-append ns (name ∷ []));
        variable = h.variable;
        constructing = h.constructing;
        held = λ j y e.
            get_elem?-set (start_slots v no_block 1) v.nr_vector j (named name)
              (omega (arith, as_long, fits))
            ∙ elim (get_elem?-snoc ns name y j e) [
              | inl (l, g) ↦
                  ground (arith, h.counted, same j (omega (arith, h.counted)), h.held j y g)
              | inr (l, g) ↦ ground (arith, l, h.counted, ap named g)
            ];
      }
