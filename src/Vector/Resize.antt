-- ===== src/Vector/Resize.antt =====
-- `vector_expand` of src/lib/vector.c: what becomes of the slots in use.
use inter_container_messagin.Base.{
  ℕ, zero, suc, ◌+◌, ◌-◌, ◌*◌, ◌%◌, ◌^◌, ◌≤◌, ◌<◌, ◌≡◌, ◌⊎◌, inl, inr, refl, ◌∙◌, Bool, true, false,
  Option, none, some, List, [], ◌∷◌, ◌++◌, Bytes, ok, ◌==◌, if◌then◌else◌, length, take, set,
  get_elem?, replicate, arith, length-set, length-append, length-take, length-replicate, Bool-cases,
}
use inter_container_messagin.Base.Word.{pos}
use inter_container_messagin.ErrorCode.{success}
use inter_container_messagin.Vector.{
  Slot, object, desc, garbage, Vector, align_up, slot_size, capacity, new_object, overruns,
  alloc_loop, resized, expand_pos, or_else, expand,
}
use inter_container_messagin.Vector.Slots.{get_obj}
use inter_container_messagin.Vector.Access.{get_elem?-set}

abbrev pub slots_of : {Arg : Type 0} → Vector Arg → List Slot
slots_of v = elim v.budget [ none ↦ [] | some slots ↦ slots ]

-- The budget is as large as the vector says, and holds the slots in use.
pub record IsValid {Arg : Type 0} (v : Vector Arg) : Type 0 where
  pub sized : length (slots_of v) ≡ capacity v.obj_size v.budget_size
  pub fits : v.nr_vector ≤ length (slots_of v)

get_elem?-take :
    (n j : ℕ) (xs ys : List Slot)
    → j < n
    → j < length xs
    → get_elem? (take n xs ++ ys) j ≡ get_elem? xs j
get_elem?-take zero j xs ys h l = absurd (omega arith)
get_elem?-take (suc n) j [] ys h l = absurd (omega arith)
get_elem?-take (suc n) zero (x ∷ xs) ys h l = refl
get_elem?-take (suc n) (suc j) (x ∷ xs) ys h l =
    get_elem?-take n j xs ys (omega arith) (omega arith)

get_elem?-replicate : (n j : ℕ) (x : Slot) → j < n → get_elem? (replicate n x) j ≡ some x
get_elem?-replicate zero j x h = absurd (omega arith)
get_elem?-replicate (suc n) zero x h = refl
get_elem?-replicate (suc n) (suc j) x h = get_elem?-replicate n j x (omega arith)

get_elem?-front :
    (n j : ℕ) (x : Slot) (ys : List Slot) → j < n → get_elem? (replicate n x ++ ys) j ≡ some x
get_elem?-front zero j x ys h = absurd (omega arith)
get_elem?-front (suc n) zero x ys h = refl
get_elem?-front (suc n) (suc j) x ys h = get_elem?-front n j x ys (omega arith)

module _ {Arg : Type 0} (v : Vector Arg) (blocks : ℕ → Option Bytes) where
  -- The slots in front of the first new one stay, and so does the size of the budget.
  record Kept (i : ℕ) (old : List Slot) (r : Bool × List Slot) : Type 0 where
    done : r.0 ≡ true
    as_long : length r.1 ≡ length old
    same : (j : ℕ) → j < i → get_elem? r.1 j ≡ get_elem? old j

  alloc_loop-Kept :
      (arg : Option Arg) (i n : ℕ) (old : List Slot)
      → ((k : ℕ) → (block : Bytes) × (blocks k ≡ some block))
      → i + n ≤ length old
      → Kept i old (alloc_loop v blocks arg i n old)
  unfolding alloc_loop
  alloc_loop-Kept arg i zero old ample h = record {
    done = refl;
    as_long = refl;
    same = λ j l. refl;
  }
  alloc_loop-Kept arg i (suc n) old ample h =
      let (block, e) = ample i in
      rw (e, alloc_loop)
        (step block (
          alloc_loop-Kept arg (suc i) n (set old i (new_object v arg block)) ample
            (omega (arith, length-set old i (new_object v arg block)))))
    where
      step :
          (block : Bytes)
          → Kept
              (suc i)
              (set old i (new_object v arg block))
              (alloc_loop v blocks arg (suc i) n (set old i (new_object v arg block)))
          → Kept i old (alloc_loop v blocks arg (suc i) n (set old i (new_object v arg block)))
      step block k = record {
        done = k.done;
        as_long = k.as_long ∙ length-set old i (new_object v arg block);
        same = λ j l.
            k.same j (omega arith)
            ∙ ground (arith, get_elem?-set old i j (new_object v arg block) (omega arith));
      }

  pub within :
      (i n len : ℕ)
      → ((k : ℕ) → (block : Bytes) × (blocks k ≡ some block))
      → i + n ≤ len
      → overruns blocks i n len ≡ false
  unfolding overruns
  within i zero len ample h = refl
  within i (suc n) len ample h =
      let (block, e) = ample i in ground (arith, e, within (suc i) n len ample (omega arith))

  resized_slots :
      (bytes : ℕ)
      → IsValid v
      → v.nr_vector ≤ capacity v.obj_size bytes
      → (length (resized v bytes) ≡ capacity v.obj_size bytes)
        × ((j : ℕ) → j < v.nr_vector → get_elem? (resized v bytes) j ≡ get_elem? (slots_of v) j)
  unfolding resized
  resized_slots bytes ok' h =
      let n = capacity v.obj_size bytes in
      (
        omega (
          arith,
          length-append (take n (slots_of v)) (replicate (n - length (slots_of v)) garbage),
          length-take n (slots_of v),
          length-replicate (n - length (slots_of v)) garbage,
        ),
        λ j l. get_elem?-take n j (slots_of v) _ (omega arith) (omega (arith, ok'.fits)),
      )

  -- The budget that `vector_expand` initialises, and the vector that it leaves.
  unfoldable pub new_bytes : ℕ → ℕ
  new_bytes n = align_up ((v.nr_vector + n) * slot_size v.obj_size % 2 ^ 32)

  pub new_bytes-fits :
      (n : ℕ) → v.nr_vector + n < 2 ^ 27 → v.nr_vector + n ≤ capacity v.obj_size (new_bytes n)
  unfolding new_bytes
  new_bytes-fits n small = ground arith

  unfoldable pub start_slots : ℕ → List Slot
  unfolding new_bytes
  start_slots n = if new_bytes n == v.budget_size then slots_of v else resized v (new_bytes n)

  unfoldable pub grown : ℕ → Option Arg → Vector Arg
  unfolding start_slots new_bytes
  grown n arg = record v {
    budget = some (alloc_loop v blocks (or_else arg v.ctor_arg) v.nr_vector n (start_slots n)).1;
    budget_size = new_bytes n;
    nr_vector = (v.nr_vector + n) % 2 ^ 32;
  }

  module _ (n : ℕ) (valid : IsValid v) (small : v.nr_vector + n < 2 ^ 27) where
    pub start_slots_lem :
        (length (start_slots n) ≡ capacity v.obj_size (new_bytes n))
        × ((j : ℕ) → j < v.nr_vector → get_elem? (start_slots n) j ≡ get_elem? (slots_of v) j)
    unfolding start_slots
    start_slots_lem = elim (Bool-cases (new_bytes n == v.budget_size)) [
      | inl same ↦ rw same (ground (arith, valid.sized), λ j l. refl)
      | inr other ↦
          rw other (resized_slots (new_bytes n) valid (omega (arith, new_bytes-fits n small)))
    ]

    module _ (arg : Option Arg) (ample : (k : ℕ) → (block : Bytes) × (blocks k ≡ some block))
        (fixed : (v.obj_size == 0) ≡ false) (own : v.flag_alloc ≡ true) where
      kept :
          Kept v.nr_vector
            (start_slots n)
            (alloc_loop v blocks (or_else arg v.ctor_arg) v.nr_vector n (start_slots n))
      kept =
          alloc_loop-Kept (or_else arg v.ctor_arg) v.nr_vector n (start_slots n) ample
            (omega (arith, start_slots_lem.0, new_bytes-fits n small))

      inside : overruns blocks v.nr_vector n (length (start_slots n)) ≡ false
      inside =
          within v.nr_vector n (length (start_slots n)) ample
            (omega (arith, start_slots_lem.0, new_bytes-fits n small))

      pub expand_pos-grown : expand_pos v true blocks n arg ≡ ok (grown n arg, success)
      unfolding expand_pos grown alloc_loop resized
      expand_pos-grown = ground (arith, kept.done, fixed, own, inside)

  -- Growing a valid fixed vector with objects of its own to fewer than 2 ^ 27 slots, when every
  -- allocation succeeds, adds exactly the number of slots asked for, leaves a valid vector, and keeps
  -- each object in use at its index.
  pub expand-keeps :
      (n : ℕ) (arg : Option Arg) (j : ℕ)
      → IsValid v
      → v.nr_vector + suc n < 2 ^ 27
      → ((k : ℕ) → (block : Bytes) × (blocks k ≡ some block))
      → (v.obj_size == 0) ≡ false
      → v.flag_alloc ≡ true
      → j < v.nr_vector
      → (v' : Vector Arg) × (expand v true blocks (pos (suc n)) arg ≡ ok (v', success))
        × (v'.nr_vector ≡ v.nr_vector + suc n)
        × IsValid v'
        × (get_obj v' (pos j) ≡ get_obj v (pos j))
  unfolding expand grown get_obj
  expand-keeps n arg j valid small ample fixed own jn =
      let k = kept (suc n) valid small arg ample fixed own in
      let (room, same) = start_slots_lem (suc n) valid small in
      (
        grown (suc n) arg,
        expand_pos-grown (suc n) valid small arg ample fixed own,
        omega arith,
        record {
          sized = k.as_long ∙ room;
          fits = omega (arith, k.as_long, room, new_bytes-fits (suc n) small);
        },
        ground (arith, k.same j jn, same j jn, valid.fits),
      )

  -- Growing a valid vector that keeps no objects of its own and has no constructor for its
  -- descriptors, to fewer than 2 ^ 27 slots and with the memory for them, clears every slot, those in
  -- use as well: each object that was stored reads as NULL afterwards.
  pub expand-clears :
      (n : ℕ) (arg : Option Arg) (j : ℕ)
      → IsValid v
      → v.nr_vector + suc n < 2 ^ 27
      → (((v.obj_size == 0) ≡ false) × (v.flag_alloc ≡ false))
        ⊎ (((v.obj_size == 0) ≡ true) × (v.ctor ≡ none))
      → j < v.nr_vector
      → (v' : Vector Arg) × (expand v true blocks (pos (suc n)) arg ≡ ok (v', success))
        × (v'.nr_vector ≡ v.nr_vector + suc n)
        × (get_obj v' (pos j) ≡ ok (none, success))
  unfolding expand get_obj
  expand-clears n arg j valid small bare jn = (
    record v {
      budget = some (
          replicate (length (start_slots (suc n)))
            (if v.obj_size == 0 then desc none 0 else object none));
      budget_size = new_bytes (suc n);
      nr_vector = (v.nr_vector + suc n) % 2 ^ 32;
    },
    unfold start_slots new_bytes in ground arith,
    omega arith,
    ground (
      arith,
      get_elem?-replicate (length (start_slots (suc n))) j
          (if v.obj_size == 0 then desc none 0 else object none)
          (omega (arith, (start_slots_lem (suc n) valid small).0, new_bytes-fits (suc n) small)),
    ),
  )
