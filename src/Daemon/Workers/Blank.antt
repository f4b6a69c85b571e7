-- ===== src/Daemon/Workers/Blank.antt =====
-- The vector of workers as `create_transport` of src/icmpd/subcmd_start.c makes it: one object for
-- each container.
use inter_container_messagin.Base.{
  ℕ, zero, suc, ◌+◌, ◌%◌, ◌^◌, ◌≤◌, ◌<◌, ◌≡◌, refl, ap, sym, ◌∙◌, Bool, true, false, Option, none,
  some, List, [], ◌∷◌, Bytes, ok, length, get_elem?, arith, set, ◌++◌, append_assoc, length-append,
}
use inter_container_messagin.Base.Word.{to_int}
use inter_container_messagin.ErrorCode.{success}
use inter_container_messagin.Vector.{
  Slot, object, alloc_loop, vector_init, expand, expand_pos, new_object,
}
use inter_container_messagin.Vector.Resize.{
  IsValid, start_slots, start_slots_lem, new_bytes, new_bytes-fits, grown, expand_pos-grown,
}
use inter_container_messagin.Vector.Lifetime.{vector_create}
use inter_container_messagin.Daemon.Workers.{Processes, Workers}

-- A vector of `n` workers with these slots
abbrev pub workers : ℕ → ℕ → List Slot → Workers
workers n bytes slots = record {
  nr_vector = n;
  budget = some slots;
  budget_size = bytes;
  obj_size = 4;
  ctor = none;
  dtor = none;
  ctor_arg = none;
  flag_alloc = true;
  flag_zero_init = false;
}

-- The first `n` slots are objects.
abbrev pub AreBlank : ℕ → List Slot → Type 0
AreBlank zero slots = Unit
AreBlank (suc n) (object (some block) ∷ slots) = AreBlank n slots
AreBlank (suc n) _ = ⊥

pub get_elem?-middle :
    (front rest : List Slot) (x : Slot) → get_elem? (front ++ (x ∷ rest)) (length front) ≡ some x
get_elem?-middle [] rest x = refl
get_elem?-middle (y ∷ front) rest x = get_elem?-middle front rest x

pub set-middle :
    (front rest : List Slot) (x y : Slot)
    → set (front ++ (x ∷ rest)) (length front) y ≡ front ++ (y ∷ rest)
set-middle [] rest x y = refl
set-middle (z ∷ front) rest x y = rw (set-middle front rest x y)

pub length-snoc : (front : List Slot) (x : Slot) → length (front ++ (x ∷ [])) ≡ suc (length front)
length-snoc front x = omega (arith, length-append front (x ∷ []))

alloc_loop-step :
    (v : Workers) (blocks : ℕ → Option Bytes) (arg : Option Unit) (i n : ℕ) (old : List Slot)
    (block : Bytes)
    → v.ctor ≡ none
    → v.flag_zero_init ≡ false
    → blocks i ≡ some block
    → alloc_loop v blocks arg i (suc n) old
      ≡ alloc_loop v blocks arg (suc i) n (set old i (object (some block)))
unfolding alloc_loop new_object
alloc_loop-step v blocks arg i n old block c z given = ground (arith, given, c, z)

-- The slots that the allocating loop leaves
alloc_loop-AreBlank :
    (v : Workers) (blocks : ℕ → Option Bytes) (arg : Option Unit) (i n : ℕ) (front rest : List Slot)
    → v.ctor ≡ none
    → v.flag_zero_init ≡ false
    → ((k : ℕ) → (block : Bytes) × (blocks k ≡ some block))
    → i ≡ length front
    → n ≤ length rest
    → (rest' : List Slot) × (alloc_loop v blocks arg i n (front ++ rest) ≡ (true, front ++ rest'))
      × AreBlank n rest'
unfolding alloc_loop
alloc_loop-AreBlank v blocks arg i zero front rest c z ample e h = (rest, refl, tt)
alloc_loop-AreBlank v blocks arg i (suc n) front [] c z ample e h = absurd (omega arith)
alloc_loop-AreBlank v blocks arg i (suc n) front (x ∷ rest) c z ample e h =
    let (block, given) = ample i in
    let new : Slot = object (some block) in
    let (rest', done, blank) =
      alloc_loop-AreBlank v blocks arg (suc i) n (front ++ (new ∷ [])) rest c z ample
        (ap suc e ∙ sym (length-snoc front new)) (omega arith) in
    (
      new ∷ rest',
      alloc_loop-step v blocks arg i n (front ++ (x ∷ rest)) block c z given
          ∙ ap (λ k. alloc_loop v blocks arg (suc i) n (set (front ++ (x ∷ rest)) k new)) e
          ∙ ap (λ l. alloc_loop v blocks arg (suc i) n l)
              (set-middle front rest x new ∙ sym (append_assoc front (new ∷ []) rest))
          ∙ done
          ∙ ap (λ l. (true, l)) (append_assoc front (new ∷ []) rest'),
      blank,
    )

-- The empty vector that `vector_create` grows
abbrev no_workers : Workers
no_workers = record {
  nr_vector = 0;
  budget = none;
  budget_size = 0;
  obj_size = 4;
  ctor = none;
  dtor = none;
  ctor_arg = none;
  flag_alloc = true;
  flag_zero_init = false;
}

no_workers-IsValid : IsValid no_workers
no_workers-IsValid = record { sized = refl; fits = omega arith }

expand-positive :
    (blocks : ℕ → Option Bytes) (k : ℕ)
    → suc k < 2 ^ 27
    → expand no_workers true blocks (to_int (suc k)) none
      ≡ expand_pos no_workers true blocks (suc k) none
unfolding expand
expand-positive blocks k small = ground arith

grown-workers :
    (blocks : ℕ → Option Bytes) (n : ℕ) (slots : List Slot)
    → n < 2 ^ 27
    → alloc_loop no_workers blocks none 0 n (start_slots no_workers blocks n) ≡ (true, slots)
    → grown no_workers blocks n none ≡ workers n (new_bytes no_workers blocks n) slots
unfolding grown
grown-workers blocks n slots small done =
    ap
      (λ r. record no_workers {
        budget = some r.1;
        budget_size = new_bytes no_workers blocks n;
        nr_vector = (0 + n) % 2 ^ 32;
      })
      done
    ∙ ap (λ m. workers m (new_bytes no_workers blocks n) slots) (omega (arith, small))

vector_create-step :
    (block realloc : Bool) (blocks : ℕ → Option Bytes) (n : ℕ) (v : Workers)
    → block ≡ true
    → realloc ≡ true
    → expand no_workers true blocks (to_int n) none ≡ ok (v, success)
    → vector_create block realloc blocks n 4 none none none true false ≡ ok (some v, success)
unfolding vector_create vector_init
vector_create-step block realloc blocks n v b r e = rw (b, r) (rw e refl)

pub created :
    (sys : Processes) (k : ℕ)
    → suc k < 2 ^ 27
    → sys.block ≡ true
    → sys.realloc ≡ true
    → ((i : ℕ) → (block : Bytes) × (sys.blocks i ≡ some block))
    → (bytes : ℕ) × (slots : List Slot) × AreBlank (suc k) slots
      × (vector_create sys.block sys.realloc sys.blocks (suc k) 4 none none none true false
          ≡ ok (some (workers (suc k) bytes slots), success))
created sys k small b r ample =
    let n = suc k in
    let small' : no_workers.nr_vector + n < 2 ^ 27 = omega (arith, small) in
    let fitting = start_slots_lem no_workers sys.blocks n no_workers-IsValid small' in
    let (slots, done, blank) =
      alloc_loop-AreBlank no_workers sys.blocks none 0 n [] (start_slots no_workers sys.blocks n)
        refl refl ample refl
        (omega (arith, fitting.0, new_bytes-fits no_workers sys.blocks n small')) in
    (
      new_bytes no_workers sys.blocks n,
      slots,
      blank,
      vector_create-step sys.block sys.realloc sys.blocks n _ b r (
          expand-positive sys.blocks k small
          ∙ expand_pos-grown no_workers sys.blocks n no_workers-IsValid small' none ample refl refl
          ∙ ap (λ v. ok (v, success)) (grown-workers sys.blocks n slots small done)),
    )
