-- ===== src/Vector/Lifetime.antt =====
-- Making and ending a vector, and what is asked of one (src/lib/vector.c).
use inter_container_messagin.Base.{
  ℕ, zero, suc, Bool, Option, none, some, List, [], ◌∷◌, Bytes, Run, ok, fault, ◌>>=◌, ◌==◌,
  if◌then◌else◌,
}
use inter_container_messagin.Base.Word.{ℤ, pos, negsuc, to_int, to_long}
use inter_container_messagin.ErrorCode.{
  vector_out_of_mem, vector_out_of_range, vector_invalid_parameter, Status, success, failure,
}
use inter_container_messagin.Vector.{Slot, desc, Vector, vector_init, shrink}
use inter_container_messagin.Vector.Slots.{get_obj, slot_index, slot_at}

module _ {Arg : Type 0} where
  -- `vector_create`: `block` says whether the vector itself can be allocated
  unfoldable pub vector_create :
      Bool
      → Bool
      → (ℕ → Option Bytes)
      → ℕ
      → ℕ
      → Option (Slot → Option Arg → Slot)
      → Option (Slot → Slot)
      → Option Arg
      → Bool
      → Bool
      → Run (Option (Vector Arg) × Status)
  unfolding vector_init
  vector_create block realloc blocks nr obj_size ctor dtor arg alloc zero_init =
      if block
      then (vector_init realloc blocks nr obj_size ctor dtor arg alloc zero_init >>= λ (v, status).
          elim status [ success ↦ ok (some v, success) | failure e ↦ ok (none, failure e) ])
      else ok (none, failure vector_out_of_mem)

  -- `vector_destroy` up to the release of the budget: the slots behind the destructor
  unfoldable pub vector_destroy : Vector Arg → Bool → (ℕ → Option Bytes) → Run (Option (List Slot))
  unfolding shrink
  vector_destroy v realloc blocks =
      shrink v realloc blocks (to_int v.nr_vector) >>= λ (left, status). ok left.budget

  -- `vector_get_obj_ref`: the slot to which the pointer that is returned leads
  unfoldable pub get_obj_ref : Vector Arg → ℤ → Option ℕ × Status
  unfolding slot_index
  get_obj_ref v index = elim (slot_index v index) [
    | none ↦ (none, failure vector_out_of_range)
    | some i ↦ (some i, success)
  ]

  -- `vector_get_obj_len`
  unfoldable pub get_obj_len : Vector Arg → ℤ → Run (ℤ × Status)
  unfolding slot_index slot_at
  get_obj_len v index = elim (slot_index v index) [
    | none ↦ ok (negsuc 0, failure vector_out_of_range)
    | some i ↦
        let descriptor : Run (ℤ × Status) =
          slot_at v i >>= λ s. elim s [ desc p len ↦ ok (to_long len, success) | _ ↦ fault ] in
        if v.obj_size == 0 then descriptor else ok (pos v.obj_size, success)
  ]

  -- `vector_get_nr_vector`; `none` is NULL
  abbrev pub get_nr_vector : Option (Vector Arg) → ℤ × Status
  get_nr_vector none = (negsuc 0, failure vector_invalid_parameter)
  get_nr_vector (some v) = (to_int v.nr_vector, success)

  -- The loop of `vector_to_string_array` over `n` objects from object `i`. What `vector_get_obj` gives
  -- for a descriptor is its buffer, which the code reads as a descriptor.
  unfoldable pub strings_loop : Vector Arg → ℕ → ℕ → Run (List (Option Bytes))
  strings_loop v i zero = ok []
  strings_loop v i (suc n) = get_obj v (to_int i) >>= λ (buf, status).
      let rest = strings_loop v (suc i) n in
      if v.obj_size == 0 then fault else (rest >>= λ more. ok (buf ∷ more))

  -- `vector_to_string_array`; `block` says whether the array is given or can be allocated.
  unfoldable pub to_string_array :
      Option (Vector Arg) → Bool → Run (Option (List (Option Bytes)) × ℤ)
  unfolding strings_loop
  to_string_array none block = ok (none, negsuc 0)
  to_string_array (some v) block =
      if v.nr_vector == 0
      then ok (none, pos 0)
      else if block
      then (strings_loop v 0 v.nr_vector >>= λ strings. ok (some strings, to_int v.nr_vector))
      else ok (none, negsuc 0)
