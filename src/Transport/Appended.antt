-- ===== src/Transport/Appended.antt =====
-- What `ic_transport_append_vector_data` of src/lib/transport.c makes of a vector that is there.
use inter_container_messagin.Base.{
  ℕ, ◌+◌, ◌^◌, ◌<◌, ◌≤◌, ◌≡◌, refl, sym, ◌∙◌, true, false, Option, none, some, List, Bytes, ok,
  length, set, get_elem?, length-set, arith,
}
use inter_container_messagin.Base.Word.{pos}
use inter_container_messagin.ErrorCode.{success}
use inter_container_messagin.Message.{rc_ok}
use inter_container_messagin.Vector.{Slot, object, Vector, new_object, alloc_loop, expand}
use inter_container_messagin.Vector.Slots.{get_obj}
use inter_container_messagin.Vector.Access.{get_elem?-set}
use inter_container_messagin.Vector.Resize.{
  IsValid, new_bytes-fits, start_slots, start_slots_lem, grown, expand_pos-grown,
}
use inter_container_messagin.Transport.{Context}
use inter_container_messagin.Transport.Append.{
  iovec, fill_last, append_vector_data, write_obj_lem, length-iovec,
}

-- A vector of `struct nn_iovec`, as `ic_transport_append_vector_data` makes it
pub record IsIovecs (v : Vector (Unit {0})) : Type 0 where
  pub valid : IsValid v
  pub sized : v.obj_size ≡ 16
  pub own : v.flag_alloc ≡ true
  pub plain : v.ctor ≡ none
  pub unset : v.flag_zero_init ≡ false

module _ (ctx : Context) (v : Vector (Unit {0})) (blocks : ℕ → Option Bytes) (block : Bytes)
    (base len : ℕ) (is : IsIovecs v) (small : v.nr_vector + 1 < 2 ^ 27)
    (ample : (k : ℕ) → (b : Bytes) × (blocks k ≡ some b)) (here : blocks v.nr_vector ≡ some block)
    (sixteen : length block ≡ 16) where
  abbrev start : List Slot
  start = start_slots v blocks 1

  abbrev behind_expand : List Slot
  behind_expand = set start v.nr_vector (object (some block))

  abbrev behind : Vector (Unit {0})
  behind = record (grown v blocks 1 none) {
    budget = some (set behind_expand v.nr_vector (object (some (iovec base len))));
  }

  start_fits : v.nr_vector + 1 ≤ length start
  start_fits =
      omega (arith, (start_slots_lem v blocks 1 is.valid small).0, new_bytes-fits v blocks 1 small)

  grown_slots : (grown v blocks 1 none).budget ≡ some behind_expand
  unfolding grown alloc_loop new_object
  grown_slots = ground (arith, is.plain, is.unset, here)

  grown_count : (grown v blocks 1 none).nr_vector ≡ v.nr_vector + 1
  unfolding grown
  grown_count = omega arith

  last_is :
      (x : Slot) (slots : List Slot)
      → v.nr_vector + 1 ≤ length slots
      → get_elem? (set slots v.nr_vector x) v.nr_vector ≡ some x
  last_is x slots h = ground (arith, get_elem?-set slots v.nr_vector v.nr_vector x (omega arith))

  behind_fits : (grown v blocks 1 none).nr_vector ≤ length behind_expand
  behind_fits =
      omega (arith, grown_count, start_fits, length-set start v.nr_vector (object (some block)))

  filled :
      fill_last
        (record ctx { tx_vec = some (some (grown v blocks 1 none)) })
        (grown v blocks 1 none)
        base
        len
      ≡ ok (record ctx { tx_vec = some (some behind) }, (success, rc_ok))
  unfolding fill_last
  filled =
      rw
        (write_obj_lem (grown v blocks 1 none) behind_expand block (iovec base len) v.nr_vector
          grown_slots grown_count behind_fits (omega (arith, grown_count))
          (last_is (object (some block)) start start_fits) (sixteen ∙ sym (length-iovec base len)))
        refl

  behind_keeps : (j : ℕ) → j < v.nr_vector → get_obj behind (pos j) ≡ get_obj v (pos j)
  unfolding get_obj
  behind_keeps j h = ground (
    arith,
    grown_count,
    get_elem?-set behind_expand v.nr_vector j (object (some (iovec base len)))
        (omega (arith, grown_count, behind_fits)),
    get_elem?-set start v.nr_vector j (object (some block)) (omega (arith, start_fits)),
    (start_slots_lem v blocks 1 is.valid small).1 j h,
    is.valid.fits,
  )

  behind_last : get_obj behind (pos v.nr_vector) ≡ ok (some (iovec base len), success)
  unfolding get_obj
  behind_last = ground (
    arith,
    grown_count,
    last_is (object (some (iovec base len))) behind_expand
        (omega (arith, grown_count, behind_fits)),
  )

  behind-IsIovecs : IsIovecs behind
  unfolding grown
  behind-IsIovecs = record {
    valid = record {
      sized =
          length-set behind_expand v.nr_vector (object (some (iovec base len)))
          ∙ length-set start v.nr_vector (object (some block))
          ∙ (start_slots_lem v blocks 1 is.valid small).0;
      fits = omega (
        arith,
        behind_fits,
        length-set behind_expand v.nr_vector (object (some (iovec base len))),
      );
    };
    sized = is.sized;
    own = is.own;
    plain = is.plain;
    unset = is.unset;
  }

  -- Appending to the vector of a transport, when every allocation succeeds, adds one object, which
  -- holds the address and the length, and keeps the objects in front of it; the vector stays one to
  -- which more can be appended. It has fewer than 2 ^ 27 objects.
  pub append_vector_data-appended :
      ctx.tx_vec ≡ some (some v)
      → (v' : Vector (Unit {0})) × (append_vector_data true true blocks ctx base len
          ≡ ok (record ctx { tx_vec = some (some v') }, (success, rc_ok)))
        × (v'.nr_vector ≡ v.nr_vector + 1)
        × IsIovecs v'
        × (get_obj v' (pos v.nr_vector) ≡ ok (some (iovec base len), success))
        × ((j : ℕ) → j < v.nr_vector → get_obj v' (pos j) ≡ get_obj v (pos j))
  unfolding append_vector_data expand
  append_vector_data-appended there = (
    behind,
    rw there (
        rw (expand_pos-grown v blocks 1 is.valid small none ample (rw is.sized refl) is.own)
          filled),
    grown_count,
    behind-IsIovecs,
    behind_last,
    behind_keeps,
  )
