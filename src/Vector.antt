-- ===== src/Vector.antt =====
-- The vectors of src/lib/vector.c and src/include/vector.h: fixed ones, whose slots point to objects
-- of one size, and variable ones (`obj_size` 0), whose slots are descriptors. `int` arguments are
-- integers, and `unsigned int` arithmetic wraps at 2 ^ 32. What is behind an allocation is an
-- argument: whether `eee_mrealloc` succeeds, and the block that `eee_malloc` returns for the object of
-- a slot. The accessors are in Slots.
pub mod Access
pub mod Lifetime
pub mod Resize
pub mod Slots
use inter_container_messagin.Base.{
  ℕ, zero, suc, ◌+◌, ◌-◌, ◌*◌, ◌/◌, ◌%◌, ◌^◌, Bool, true, false, not, Option, none, some, List, [],
  ◌++◌, Bytes, Run, ok, fault, ◌>>=◌, leb, ltb, ◌==◌, if◌then◌else◌, length, take, drop, set,
  get_elem?, replicate,
}
use inter_container_messagin.Base.Word.{ℤ, pos, negsuc, to_int}
use inter_container_messagin.ErrorCode.{
  vector_out_of_mem, vector_out_of_range, Status, success, failure,
}

-- What a slot holds: an object pointer with the bytes behind it (`none` is NULL), a descriptor with
-- its buffer and length, or what `eee_mrealloc` left there.
pub data Slot : Type 0 where
  object : Option Bytes → Slot
  desc : Option Bytes → ℕ → Slot
  garbage : Slot

-- `vector_t`. The constructor and destructor act on the slot. `budget` is NULL, or freed, as `none`;
-- the two flags are VECTOR_FLAGS_ALLOC and VECTOR_FLAGS_ZERO_INIT.
pub record Vector (Arg : Type 0) : Type 0 where
  pub nr_vector : ℕ
  pub budget : Option (List Slot)
  pub budget_size : ℕ
  pub obj_size : ℕ
  pub ctor : Option (Slot → Option Arg → Slot)
  pub dtor : Option (Slot → Slot)
  pub ctor_arg : Option Arg
  pub flag_alloc : Bool
  pub flag_zero_init : Bool

abbrev pub vector_budget_size : ℕ
vector_budget_size = 4096

-- `align_up(x, VECTOR_BUDGET_SIZE)` on `unsigned int`
abbrev pub align_up : ℕ → ℕ
align_up x = (x + (vector_budget_size - 1)) % 2 ^ 32 / vector_budget_size * vector_budget_size

-- `sizeof(void *)` or `sizeof(var_vector_desc_t)`
abbrev pub slot_size : ℕ → ℕ
slot_size obj_size = if obj_size == 0 then 16 else 8

-- The slots that fit a budget of a number of bytes.
abbrev pub capacity : ℕ → ℕ → ℕ
capacity obj_size bytes = bytes / slot_size obj_size

-- `eee_memset(budget, 0, budget_size)`
abbrev pub zeroed : ℕ → List Slot → List Slot
zeroed obj_size budget =
    replicate (length budget) (if obj_size == 0 then desc none 0 else object none)

-- The first `i` objects are freed and their slots set to NULL.
abbrev pub freed_below : ℕ → List Slot → List Slot
freed_below i budget = replicate i (object none) ++ drop i budget

-- The destructor over `n` slots from slot `i`; a NULL object is passed over.
destroy_loop : (Slot → Slot) → ℕ → ℕ → List Slot → List Slot
destroy_loop dtor i zero budget = budget
destroy_loop dtor i (suc n) budget =
    let slots : List Slot = elim (get_elem? budget i) [
      | none ↦ budget
      | some (object none) ↦ budget
      | some other ↦ set budget i (dtor other)
    ] in
    destroy_loop dtor (suc i) n slots

-- Whether the allocating loop of `init_budget` leaves the budget: it writes behind its end, or frees
-- there what was never allocated.
unfoldable pub overruns : (ℕ → Option Bytes) → ℕ → ℕ → ℕ → Bool
overruns blocks i zero len = false
overruns blocks i (suc n) len =
    let later = overruns blocks (suc i) n len in
    elim (blocks i) [ none ↦ ltb len i | some block ↦ if leb len i then true else later ]

module _ {Arg : Type 0} where
  -- A new object in the block that `eee_malloc` gave: constructed, zeroed or as it is.
  unfoldable pub new_object : Vector Arg → Option Arg → Bytes → Slot
  new_object v arg block = elim v.ctor [
    | some ctor ↦ ctor (object (some block)) arg
    | none ↦
        if v.flag_zero_init then object (some (replicate v.obj_size 0)) else object (some block)
  ]

  -- That loop inside the budget, from slot `i` over `n` slots. The flag is its success; on a
  -- failure everything in front of the slot is freed.
  unfoldable pub alloc_loop :
      Vector Arg → (ℕ → Option Bytes) → Option Arg → ℕ → ℕ → List Slot → Bool × List Slot
  alloc_loop v blocks arg i zero budget = (true, budget)
  alloc_loop v blocks arg i (suc n) budget = elim (blocks i) [
    | some block ↦ alloc_loop v blocks arg (suc i) n (set budget i (new_object v arg block))
    | none ↦ (false, freed_below i budget)
  ]

  -- The constructing loop of `init_budget` for a variable vector, inside the budget
  unfoldable pub ctor_loop : (Slot → Option Arg → Slot) → Option Arg → ℕ → ℕ → List Slot → List Slot
  ctor_loop ctor arg i zero budget = budget
  ctor_loop ctor arg i (suc n) budget =
      let old : Slot = elim (get_elem? budget i) [ none ↦ garbage | some s ↦ s ] in
      ctor_loop ctor arg (suc i) n (set budget i (ctor old arg))

  unfoldable pub init_budget :
      Vector Arg → (ℕ → Option Bytes) → ℕ → Option Arg → List Slot → Run (Bool × List Slot)
  unfolding overruns alloc_loop ctor_loop
  init_budget v blocks nr arg budget =
      if not (v.obj_size == 0)
      then (if v.flag_alloc
          then (if overruns blocks v.nr_vector nr (length budget)
              then fault
              else ok (alloc_loop v blocks arg v.nr_vector nr budget))
          else ok (true, zeroed v.obj_size budget))
      else elim v.ctor [
        | some ctor ↦
            if ltb (length budget) (v.nr_vector + nr)
            then fault
            else ok (true, ctor_loop ctor arg v.nr_vector nr budget)
        | none ↦ ok (true, zeroed v.obj_size budget)
      ]

  -- `eee_mrealloc` of the budget: the old slots as far as they fit, the rest uninitialised.
  unfoldable pub resized : Vector Arg → ℕ → List Slot
  resized v bytes =
      let old : List Slot = elim v.budget [ none ↦ [] | some slots ↦ slots ] in
      let n = capacity v.obj_size bytes in take n old ++ replicate (n - length old) garbage

  -- The end of `vector_expand`, with the budget that was obtained. On a failure a new budget is
  -- freed, and with it the old one; one that was kept has lost its objects.
  unfoldable pub expand_into :
      Vector Arg → (ℕ → Option Bytes) → ℕ → ℕ → Option Arg → List Slot → Run (Vector Arg × Status)
  unfolding init_budget
  expand_into v blocks nr bytes arg budget = init_budget v blocks nr arg budget >>= λ (done, slots).
      if done
      then ok (
        record v {
          budget = some slots;
          budget_size = bytes;
          nr_vector = (v.nr_vector + nr) % 2 ^ 32;
        },
        success,
      )
      else ok (
        record v { budget = if bytes == v.budget_size then some slots else none },
        failure vector_out_of_mem,
      )

  abbrev pub or_else : Option Arg → Option Arg → Option Arg
  or_else none fallback = fallback
  or_else (some arg) fallback = some arg

  -- `vector_expand` by a positive number. The sum of the two counts is read as an `int`.
  unfoldable pub expand_pos :
      Vector Arg → Bool → (ℕ → Option Bytes) → ℕ → Option Arg → Run (Vector Arg × Status)
  unfolding expand_into resized
  expand_pos v realloc blocks nr arg =
      if leb (2 ^ 31) ((v.nr_vector + nr) % 2 ^ 32)
      then ok (v, failure vector_out_of_range)
      else let bytes = align_up ((v.nr_vector + nr) * slot_size v.obj_size % 2 ^ 32) in
        let arg' : Option Arg = or_else arg v.ctor_arg in
        if bytes == v.budget_size
        then expand_into v blocks nr bytes arg' (elim v.budget [ none ↦ [] | some slots ↦ slots ])
        else if realloc
        then expand_into v blocks nr bytes arg' (resized v bytes)
        else ok (v, failure vector_out_of_mem)

  -- `vector_shrink` by a positive number. Both the start of the loop and the new count wrap when
  -- there are fewer slots.
  unfoldable pub shrink_pos : Vector Arg → ℕ → Run (Vector Arg × Status)
  unfolding destroy_loop
  shrink_pos v nr =
      let start = (v.nr_vector + 2 ^ 32 - nr) % 2 ^ 32 in
      let slots : Run (Option (List Slot)) = elim v.dtor [
        | none ↦ ok v.budget
        | some dtor ↦ elim v.budget [
          | none ↦ if ltb start v.nr_vector then fault else ok none
          | some old ↦ ok (some (destroy_loop dtor start (v.nr_vector - start) old))
        ]
      ] in
      slots >>= λ left. ok (record v { budget = left; nr_vector = start }, success)

  unfoldable pub expand :
      Vector Arg → Bool → (ℕ → Option Bytes) → ℤ → Option Arg → Run (Vector Arg × Status)
  unfolding expand_pos shrink_pos
  expand v realloc blocks (pos zero) arg = ok (v, success)
  expand v realloc blocks (pos (suc n)) arg = expand_pos v realloc blocks (suc n) arg
  expand v realloc blocks (negsuc n) arg = shrink_pos v (suc n)

  unfoldable pub shrink : Vector Arg → Bool → (ℕ → Option Bytes) → ℤ → Run (Vector Arg × Status)
  unfolding expand_pos shrink_pos
  shrink v realloc blocks (pos zero) = ok (v, success)
  shrink v realloc blocks (pos (suc n)) = shrink_pos v (suc n)
  shrink v realloc blocks (negsuc n) = expand_pos v realloc blocks (suc n) none

  -- `vector_init` of a zeroed `vector_t`, and `vector_increase_obj`
  unfoldable pub vector_init :
      Bool
      → (ℕ → Option Bytes)
      → ℕ
      → ℕ
      → Option (Slot → Option Arg → Slot)
      → Option (Slot → Slot)
      → Option Arg
      → Bool
      → Bool
      → Run (Vector Arg × Status)
  unfolding expand
  vector_init realloc blocks nr obj_size ctor dtor arg alloc zero_init =
      let empty : Vector Arg = record {
        nr_vector = 0;
        budget = none;
        budget_size = 0;
        obj_size = obj_size;
        ctor = ctor;
        dtor = dtor;
        ctor_arg = arg;
        flag_alloc = alloc;
        flag_zero_init = zero_init;
      } in
      expand empty realloc blocks (to_int nr) arg

  abbrev pub increase_obj :
      Vector Arg → Bool → (ℕ → Option Bytes) → Option Arg → Run (Vector Arg × Status)
  increase_obj v realloc blocks arg = expand v realloc blocks (pos 1) arg
