-- ===== src/Vector/Access.antt =====
-- Reading and writing the slots of a vector of src/lib/vector.c.
use inter_container_messagin.Base.{
  ℕ, zero, suc, ◌^◌, ◌≤◌, ◌<◌, ◌≡◌, refl, Bool, true, not, ◌&&◌, ◌||◌, none, some, List, [], ◌∷◌,
  Bytes, ok, leb, ◌==◌, if◌then◌else◌, length, take, set, get_elem?, arith,
}
use inter_container_messagin.Base.Word.{pos, negsuc}
use inter_container_messagin.ErrorCode.{vector_out_of_range, success, failure}
use inter_container_messagin.Vector.{Slot, object, desc, Vector}
use inter_container_messagin.Vector.Slots.{get_obj, set_obj}

pub get_elem?-set :
    (slots : List Slot) (i j : ℕ) (x : Slot)
    → i < length slots
    → get_elem? (set slots i x) j ≡ (if i == j then some x else get_elem? slots j)
get_elem?-set [] i j x h = absurd (omega arith)
get_elem?-set (y ∷ slots) zero zero x h = refl
get_elem?-set (y ∷ slots) zero (suc j) x h = ground arith
get_elem?-set (y ∷ slots) (suc i) zero x h = ground arith
get_elem?-set (y ∷ slots) (suc i) (suc j) x h = ground (arith, get_elem?-set slots i j x)

-- An index below the count of slots, all of which the budget holds.
pub record InRange {Arg : Type 0} (v : Vector Arg) (slots : List Slot) (i : ℕ) : Type 0 where
  pub held : v.budget ≡ some slots
  pub below : i < v.nr_vector
  pub fits : v.nr_vector ≤ length slots
  pub counted : v.nr_vector < 2 ^ 31

module _ {Arg : Type 0} (v : Vector Arg) where
  -- No negative index is admitted, so the branch of the accessors that would make it the last slot is
  -- never taken, in a vector of at most 2 ^ 31 slots.
  pub negative_index-refused :
      (n : ℕ) (buf : Bytes) (len : ℕ)
      → n < 2 ^ 31
      → v.nr_vector ≤ 2 ^ 31
      → (get_obj v (negsuc n) ≡ ok (none, failure vector_out_of_range))
        × (set_obj v (negsuc n) buf len ≡ ok (v, failure vector_out_of_range))
  unfolding get_obj set_obj
  negative_index-refused n buf len h c = ground arith

  -- What `vector_set_obj` leaves in the slot, and when it may write there: a vector with objects of
  -- its own copies `obj_size` bytes into the object of the slot, which must be there.
  unfoldable pub new_slot : Bytes → ℕ → Slot
  new_slot buf len =
      if v.obj_size == 0
      then desc (some buf) len
      else if v.flag_alloc
      then object (some (take v.obj_size buf))
      else object (some buf)

  unfoldable pub writable : Slot → Bytes → Bool
  writable (object (some old)) buf =
      v.obj_size == 0 || not v.flag_alloc || leb v.obj_size (length buf)
  writable _ buf = v.obj_size == 0 || not v.flag_alloc

  set_obj-ok :
      {slots : List Slot} (i : ℕ) (buf : Bytes) (len : ℕ) (old : Slot)
      → InRange v slots i
      → v.dtor ≡ none
      → get_elem? slots i ≡ some old
      → writable old buf ≡ true
      → set_obj v (pos i) buf len
        ≡ ok (record v { budget = some (set slots i (new_slot buf len)) }, success)
  unfolding set_obj new_slot writable
  set_obj-ok i buf len old r d e w = ground (arith, r.held, r.below, r.counted)

  -- Without a destructor, what `vector_set_obj` stored at an index is what `vector_get_obj` returns
  -- there, cut to the object size where the vector keeps objects of its own, and the other slots and
  -- their count stay as they were.
  pub set_obj-get_obj :
      {slots : List Slot} (i j : ℕ) (buf : Bytes) (len : ℕ) (old : Slot)
      → InRange v slots i
      → j < v.nr_vector
      → v.dtor ≡ none
      → get_elem? slots i ≡ some old
      → writable old buf ≡ true
      → (v' : Vector Arg) × (set_obj v (pos i) buf len ≡ ok (v', success))
        × (v'.nr_vector ≡ v.nr_vector)
        × (get_obj v' (pos j) ≡ (
            if i == j
            then ok (
              some (if not (v.obj_size == 0) && v.flag_alloc then take v.obj_size buf else buf),
              success,
            )
            else get_obj v (pos j)))
  unfolding get_obj new_slot
  set_obj-get_obj {slots} i j buf len old r jn d e w = (
    record v { budget = some (set slots i (new_slot buf len)) },
    set_obj-ok i buf len old r d e w,
    refl,
    ground (
      arith,
      r.held,
      r.below,
      r.counted,
      get_elem?-set slots i j (new_slot buf len) (omega (arith, r.below, r.fits)),
    ),
  )
