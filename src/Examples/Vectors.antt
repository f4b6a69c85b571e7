-- ===== src/Examples/Vectors.antt =====
-- Vectors (src/lib/vector.c) at concrete inputs.
use inter_container_messagin.Base.{
  ℕ, ◌≡◌, refl, true, false, some, none, [], ◌∷◌, Bytes, ok, arith, inl, Option, replicate,
  length-replicate,
}
use inter_container_messagin.Base.Word.{pos}
use inter_container_messagin.ErrorCode.{success}
use inter_container_messagin.Vector.{Vector, object, garbage, expand}
use inter_container_messagin.Vector.Slots.{get_obj}
use inter_container_messagin.Vector.Access.{InRange, writable}
use inter_container_messagin.Vector.Resize.{IsValid, expand-keeps, expand-clears}

-- One object of two bytes in use, in a budget of one page.
abbrev fixed : Vector ℕ
fixed = record {
  nr_vector = 1;
  budget = some (object (some (1 ∷ 2 ∷ [])) ∷ replicate 511 garbage);
  budget_size = 4096;
  obj_size = 2;
  ctor = none;
  dtor = none;
  ctor_arg = none;
  flag_alloc = true;
  flag_zero_init = true;
}

fixed-InRange : InRange fixed (object (some (1 ∷ 2 ∷ [])) ∷ replicate 511 garbage) 0
fixed-InRange = record {
  held = refl;
  below = omega arith;
  fits = omega (arith, length-replicate 511 garbage);
  counted = omega arith;
}

fixed-IsValid : IsValid fixed
fixed-IsValid = record { sized = refl; fits = omega (arith, length-replicate 511 garbage) }

-- The same with objects that the caller keeps.
abbrev borrowed : Vector ℕ
borrowed = record fixed { flag_alloc = false }

borrowed-IsValid : IsValid borrowed
borrowed-IsValid = record { sized = refl; fits = omega (arith, length-replicate 511 garbage) }

abbrev blocks : ℕ → Option Bytes
blocks k = some (0 ∷ 0 ∷ [])

writes : writable fixed (object (some (1 ∷ 2 ∷ []))) (7 ∷ 8 ∷ []) ≡ true
unfolding writable
writes = refl

expand-keeps_example :
    (v' : Vector ℕ) × (expand fixed true blocks (pos 2) none ≡ ok (v', success))
    × (v'.nr_vector ≡ 3)
    × IsValid v'
    × (get_obj v' (pos 0) ≡ get_obj fixed (pos 0))
expand-keeps_example =
    expand-keeps fixed blocks 1 none 0 fixed-IsValid (omega arith) (λ k. (0 ∷ 0 ∷ [], refl)) refl
      refl (omega arith)

expand-clears_example :
    (v' : Vector ℕ) × (expand borrowed true blocks (pos 2) none ≡ ok (v', success))
    × (v'.nr_vector ≡ 3)
    × (get_obj v' (pos 0) ≡ ok (none, success))
expand-clears_example =
    expand-clears borrowed blocks 1 none 0 borrowed-IsValid (omega arith) (inl (refl, refl))
      (omega arith)
