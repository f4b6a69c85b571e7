-- ===== src/Lxc/Defined.antt =====
-- The containers that `ic_lxc_list_defined_containers` of src/lib/lxc.c lists.
use inter_container_messagin.Base.{
  ℕ, ◌+◌, ◌*◌, ◌%◌, ◌^◌, ◌≤◌, ◌<◌, ◌≡◌, append-nil, refl, ◌∙◌, Bool, true, false, none, some, List,
  [], ◌∷◌, ◌++◌, Bytes, ok, if◌then◌else◌, length, get_elem?, arith, inl, inr, Bool-cases,
  length-append, append_assoc, bytes_eq,
}
use inter_container_messagin.Base.Word.{pos}
use inter_container_messagin.ErrorCode.{success}
use inter_container_messagin.Vector.{Vector, align_up, slot_size, expand, increase_obj, vector_init}
use inter_container_messagin.Vector.Slots.{get_obj}
use inter_container_messagin.Vector.Lifetime.{vector_create}
use inter_container_messagin.Lxc.{
  Directory, set_name, unset_name, is_defined, config_file_exists, slash, slash_config, list_loop,
  list_defined_containers,
}
use inter_container_messagin.Lxc.Names.{
  no_block, HoldsNames, get_elem?-below, added, increase_obj-added, added-HoldsNames,
}

-- The path of the configuration of a container
abbrev pub configuration : Bytes → Bytes → Bytes
configuration lxcpath name =
    lxcpath ++ (b'/' ∷ (name ++ (b'/' ∷ b'c' ∷ b'o' ∷ b'n' ∷ b'f' ∷ b'i' ∷ b'g' ∷ [])))

-- The names of the containers: those of the entries that are not "." or ".." and whose configuration
-- exists. Other entries that begin with a dot count.
abbrev pub is_container : Directory → Bytes → Bytes → Bool
is_container dir lxcpath name =
    if bytes_eq name (b'.' ∷ [])
    then false
    else if bytes_eq name (b'.' ∷ b'.' ∷ [])
    then false
    else dir.exists (configuration lxcpath name)

abbrev pub defined : Directory → Bytes → List Bytes → List Bytes
defined dir lxcpath [] = []
defined dir lxcpath (name ∷ names) =
    if is_container dir lxcpath name
    then name ∷ defined dir lxcpath names
    else defined dir lxcpath names

is_defined-is_container :
    (dir : Directory) (lxcpath name : Bytes)
    → is_defined dir lxcpath name ≡ is_container dir lxcpath name
unfolding is_defined config_file_exists
is_defined-is_container dir lxcpath name = ground (
  arith,
  length-append lxcpath (slash ++ (name ++ slash_config)),
  length-append name slash_config,
)

module _ (room : ℕ → Bool) (ample : (n : ℕ) → room n ≡ true) where
  module _ (dir : Directory) (lxcpath : Bytes) where
    list_loop-step :
        (name : Bytes) (names : List Bytes) (v v' : Vector Bytes)
        → is_defined dir lxcpath name ≡ true
        → increase_obj v true no_block (some name) ≡ ok (v', success)
        → list_loop room dir lxcpath (name ∷ names) v ≡ list_loop room dir lxcpath names v'
    unfolding list_loop
    list_loop-step name names v v' d e =
        rw (d, ample (align_up ((v.nr_vector + 1) * slot_size v.obj_size % 2 ^ 32))) (rw e refl)

    list_loop-HoldsNames :
        (entries ns : List Bytes) (v : Vector Bytes)
        → HoldsNames room ns v
        → length ns + length entries < 2 ^ 27
        → (v' : Vector Bytes) × (list_loop room dir lxcpath entries v ≡ ok (some v'))
          × HoldsNames room (ns ++ defined dir lxcpath entries) v'
    unfolding list_loop
    list_loop-HoldsNames [] ns v h small = (v, refl, rw (append-nil ns) h)
    list_loop-HoldsNames (name ∷ names) ns v h small =
        elim (Bool-cases (is_container dir lxcpath name)) [
          | inr other ↦
              let (v', e, h') = list_loop-HoldsNames names ns v h (omega arith) in
              (v', rw (is_defined-is_container dir lxcpath name ∙ other) e, rw other h')
          | inl this ↦
              let (v', e, h') =
                list_loop-HoldsNames names (ns ++ (name ∷ [])) (added room ample v name)
                  (added-HoldsNames room ample ns v name h (omega arith))
                  (omega (arith, length-append ns (name ∷ []))) in
              (
                v',
                list_loop-step name names v (added room ample v name)
                      (is_defined-is_container dir lxcpath name ∙ this)
                      (increase_obj-added room ample v name h.valid (omega (arith, h.counted))
                        h.variable h.constructing)
                    ∙ e,
                rw this (rw (append_assoc ns (name ∷ []) (defined dir lxcpath names)) at h'),
              )
        ]

    pub length-defined : (names : List Bytes) → length (defined dir lxcpath names) ≤ length names
    length-defined [] = omega arith
    length-defined (name ∷ names) = ground (arith, length-defined names)

    -- The vector that the loop starts from
    abbrev no_names : Vector Bytes
    no_names = record {
      nr_vector = 0;
      budget = none;
      budget_size = 0;
      obj_size = 0;
      ctor = some (set_name room);
      dtor = some unset_name;
      ctor_arg = none;
      flag_alloc = false;
      flag_zero_init = false;
    }

    no_names-HoldsNames : HoldsNames room [] no_names
    no_names-HoldsNames = record {
      valid = record { sized = refl; fits = omega arith };
      counted = refl;
      variable = refl;
      constructing = refl;
      held = λ j name e. cc;
    }

    list_defined_containers-loop :
        (names : List Bytes)
        → dir.block ≡ true
        → dir.entries ≡ some names
        → list_defined_containers room dir (some lxcpath)
          ≡ list_loop room dir lxcpath names no_names
    unfolding list_defined_containers vector_create vector_init expand
    list_defined_containers-loop names block opened = rw (block, opened) refl

    pub get_obj-held :
        (ns : List Bytes) (v : Vector Bytes) (j : ℕ) (name : Bytes)
        → HoldsNames room ns v
        → length ns < 2 ^ 27
        → get_elem? ns j ≡ some name
        → get_obj v (pos j) ≡ ok (some (name ++ (0 ∷ [])), success)
    unfolding get_obj
    get_obj-held ns v j name h small e =
        ground (arith, h.counted, get_elem?-below ns j name e, h.held j name e)

    pub list_defined_containers-HoldsNames :
        (names : List Bytes)
        → dir.block ≡ true
        → dir.entries ≡ some names
        → length names < 2 ^ 27
        → (v : Vector Bytes) × (list_defined_containers room dir (some lxcpath) ≡ ok (some v))
          × HoldsNames room (defined dir lxcpath names) v
    list_defined_containers-HoldsNames names block opened small =
        let (v, e, h) = list_loop-HoldsNames names [] no_names no_names-HoldsNames (omega arith) in
        (v, list_defined_containers-loop names block opened ∙ e, h)

    -- With memory, and fewer than 2 ^ 27 entries in a directory that can be opened, the containers
    -- that are listed are exactly the entries with a configuration file, without "." and ".." but with
    -- every other one that begins with a dot, in the order of the directory: the vector has one object
    -- for each, its name with a NUL.
    pub list_defined_containers-defined :
        (names : List Bytes)
        → dir.block ≡ true
        → dir.entries ≡ some names
        → length names < 2 ^ 27
        → (v : Vector Bytes) × (list_defined_containers room dir (some lxcpath) ≡ ok (some v))
          × (v.nr_vector ≡ length (defined dir lxcpath names))
          × ((j : ℕ) (name : Bytes)
              → get_elem? (defined dir lxcpath names) j ≡ some name
              → get_obj v (pos j) ≡ ok (some (name ++ (0 ∷ [])), success))
    list_defined_containers-defined names block opened small =
        let (v, e, h) = list_defined_containers-HoldsNames names block opened small in
        (
          v,
          e,
          h.counted,
          λ j name at.
              get_obj-held (defined dir lxcpath names) v j name h
                (omega (arith, small, length-defined names)) at,
        )
