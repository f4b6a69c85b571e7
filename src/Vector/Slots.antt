-- ===== src/Vector/Slots.antt =====
-- The accessors of src/lib/vector.c: `vector_get_obj`, `vector_set_obj` and the slot that an index
-- stands for.
use inter_container_messagin.Base.{
  ℕ, ◌-◌, not, Option, none, some, Bytes, Run, ok, fault, ◌>>=◌, leb, ◌==◌, if◌then◌else◌, length,
  take, set, get_elem?,
}
use inter_container_messagin.Base.Word.{ℤ, to_uint, is_neg}
use inter_container_messagin.ErrorCode.{vector_out_of_range, Status, success, failure}
use inter_container_messagin.Vector.{Slot, object, desc, garbage, Vector}

abbrev buffer_of : Slot → Run (Option Bytes × Status)
buffer_of (object p) = ok (p, success)
buffer_of (desc p len) = ok (p, success)
buffer_of garbage = fault

module _ {Arg : Type 0} where
  -- The index that the accessors use: `index >= vec->nr_vector` is a comparison of `unsigned int`, and
  -- a negative index that passes it stands for the last slot.
  unfoldable pub slot_index : Vector Arg → ℤ → Option ℕ
  slot_index v index =
      if leb v.nr_vector (to_uint index)
      then none
      else if is_neg index
      then some (v.nr_vector - 1)
      else some (to_uint index)

  -- The slot at an index; the budget ends in a fault.
  unfoldable pub slot_at : Vector Arg → ℕ → Run Slot
  slot_at v i = elim v.budget [
    | none ↦ fault
    | some slots ↦ elim (get_elem? slots i) [ none ↦ fault | some s ↦ ok s ]
  ]

  -- `vector_get_obj`: the pointer, with the bytes behind it
  unfoldable pub get_obj : Vector Arg → ℤ → Run (Option Bytes × Status)
  unfolding slot_index slot_at
  get_obj v index = elim (slot_index v index) [
    | none ↦ ok (none, failure vector_out_of_range)
    | some i ↦ slot_at v i >>= buffer_of
  ]

  -- The slot behind `vector_set_obj`: the bytes are copied into an object of the vector's own, or the
  -- pointer is stored.
  stored : Vector Arg → Slot → Bytes → ℕ → Run Slot
  stored v old buf len =
      if not (v.obj_size == 0)
      then (if v.flag_alloc
          then elim old [
            | object none ↦ fault
            | garbage ↦ fault
            | _ ↦
                if leb v.obj_size (length buf)
                then ok (object (some (take v.obj_size buf)))
                else fault
          ]
          else ok (object (some buf)))
      else ok (desc (some buf) len)

  unfoldable pub set_obj : Vector Arg → ℤ → Bytes → ℕ → Run (Vector Arg × Status)
  unfolding slot_index slot_at stored
  set_obj v index buf len = elim (slot_index v index) [
    | none ↦ ok (v, failure vector_out_of_range)
    | some i ↦ slot_at v i >>= λ old.
        stored v (elim v.dtor [ none ↦ old | some dtor ↦ dtor old ]) buf len >>= λ new. ok (
          record v { budget = elim v.budget [ none ↦ none | some slots ↦ some (set slots i new) ] },
          success,
        )
  ]
