-- ===== src/Daemon/Workers/Recorded.antt =====
-- What `create_transport` of src/icmpd/subcmd_start.c records of the workers.
use inter_container_messagin.Base.{
  ℕ, zero, suc, ◌+◌, ◌^◌, ◌≤◌, ◌<◌, ◌≡◌, refl, ap, sym, ◌∙◌, true, false, none, some, List, [], ◌∷◌,
  Bytes, ok, if◌then◌else◌, length, get_elem?, bytes_eq, arith, ◌++◌, drop, append_assoc,
}
use inter_container_messagin.Base.Word.{pos, to_int}
use inter_container_messagin.Message.{rc_ok, to_le}
use inter_container_messagin.ErrorCode.{success}
use inter_container_messagin.Vector.{Slot, object, desc, garbage}
use inter_container_messagin.Vector.Slots.{get_obj, set_obj}
use inter_container_messagin.Vector.Lifetime.{vector_create}
use inter_container_messagin.Daemon.Workers.{
  Processes, Workers, create_worker, create_loop, create_transport, stop_worker,
}
use inter_container_messagin.Daemon.Workers.Blank.{
  workers, AreBlank, get_elem?-middle, set-middle, length-snoc, created,
}
use inter_container_messagin.Daemon.Workers.Stopped.{
  recorded, started, pid_slots, length-recorded, stop_worker-started,
}

-- The process number of a container
abbrev pid_of : (ℕ → ℕ) → Bytes → ℕ → Bytes → ℕ
pid_of pid own i name = if bytes_eq name own then 0 else pid i

set_obj-middle :
    (n bytes pid : ℕ) (front rest : List Slot) (block : Bytes)
    → length front < n
    → n < 2 ^ 31
    → set_obj
        (workers n bytes (front ++ (object (some block) ∷ rest)))
        (to_int (length front))
        (to_le 4 pid)
        4
      ≡ ok (workers n bytes (front ++ (object (some (to_le 4 pid)) ∷ rest)), success)
unfolding set_obj to_le
set_obj-middle n bytes pid front rest block h small = ground (
  arith,
  get_elem?-middle front rest (object (some block)),
  set-middle front rest (object (some block)) (object (some (to_le 4 pid))),
)

module _ (sys : Processes) (pid : ℕ → ℕ) (able : sys.signals ≡ true)
    (forks : (i : ℕ) → sys.fork i ≡ some (pid i)) (own : Bytes) where
  child_lem :
      (i : ℕ) (name : Bytes)
      → (if bytes_eq name own then ok 0 else create_worker sys i) ≡ ok (pid_of pid own i name)
  unfolding create_worker
  child_lem i name = ground (arith, able, forks i)

  create_loop-step :
      (i child : ℕ) (name : Bytes) (names : List Bytes) (v v' : Workers)
      → (if bytes_eq name own then ok 0 else create_worker sys i) ≡ ok child
      → set_obj v (to_int i) (to_le 4 child) 4 ≡ ok (v', success)
      → create_loop sys own i (name ∷ names) v ≡ create_loop sys own (suc i) names v'
  unfolding create_loop
  create_loop-step i child name names v v' c s = rw (c, s) refl

  create_loop-recorded :
      (n bytes i : ℕ) (front rest : List Slot) (names : List Bytes)
      → i ≡ length front
      → length front + length names ≤ n
      → n < 2 ^ 31
      → AreBlank (length names) rest
      → create_loop sys own i names (workers n bytes (front ++ rest))
        ≡ ok (
            workers n bytes
              (front ++ (pid_slots (recorded pid own i names) ++ drop (length names) rest)))
  unfolding create_loop
  create_loop-recorded n bytes i front rest [] e h small b = refl
  create_loop-recorded n bytes i front [] (name ∷ names) e h small b = absurd b
  create_loop-recorded n bytes i front (object none ∷ rest) (name ∷ names) e h small b = absurd b
  create_loop-recorded n bytes i front (desc p len ∷ rest) (name ∷ names) e h small b = absurd b
  create_loop-recorded n bytes i front (garbage ∷ rest) (name ∷ names) e h small b = absurd b
  create_loop-recorded n bytes i front (object (some block) ∷ rest) (name ∷ names) e h small b =
      let new : Slot = object (some (to_le 4 (pid_of pid own i name))) in
      let behind : List Slot =
        pid_slots (recorded pid own (suc i) names) ++ drop (length names) rest in
      create_loop-step i (pid_of pid own i name) name names _
        (workers n bytes ((front ++ (new ∷ [])) ++ rest)) (child_lem i name)
        (ap
            (λ k.
              set_obj (workers n bytes (front ++ (object (some block) ∷ rest))) (to_int k)
                (to_le 4 (pid_of pid own i name)) 4)
            e
          ∙ set_obj-middle n bytes (pid_of pid own i name) front rest block (omega arith) small
          ∙ ap (λ l. ok (workers n bytes l, success)) (sym (append_assoc front (new ∷ []) rest)))
      ∙ create_loop-recorded n bytes (suc i) (front ++ (new ∷ [])) rest names
          (ap suc e ∙ sym (length-snoc front new)) (omega (arith, length-snoc front new)) small b
      ∙ ap (λ l. ok (workers n bytes l)) (append_assoc front (new ∷ []) behind)

get_elem?-pid_slots :
    (ps : List ℕ) (rest : List Slot) (j p : ℕ)
    → get_elem? ps j ≡ some p
    → (get_elem? (pid_slots ps ++ rest) j ≡ some (object (some (to_le 4 p)))) × (j < length ps)
get_elem?-pid_slots [] rest j p e = cc
get_elem?-pid_slots (q ∷ ps) rest zero p e = ground (arith, e)
get_elem?-pid_slots (q ∷ ps) rest (suc j) p e =
    let (g, l) = get_elem?-pid_slots ps rest j p e in (g, omega arith)

get_obj-at :
    (n bytes j p : ℕ) (slots : List Slot)
    → get_elem? slots j ≡ some (object (some (to_le 4 p)))
    → j < n
    → n < 2 ^ 31
    → get_obj (workers n bytes slots) (pos j) ≡ ok (some (to_le 4 p), success)
unfolding get_obj
get_obj-at n bytes j p slots e h small = ground arith

create_transport-step :
    (sys : Processes) (own name : Bytes) (names : List Bytes) (v v' : Workers)
    → vector_create sys.block sys.realloc sys.blocks
        (length (name ∷ names))
        4
        none
        none
        none
        true
        false
      ≡ ok (some v, success)
    → create_loop sys own 0 (name ∷ names) v ≡ ok v'
    → create_transport sys own (name ∷ names) ≡ ok (some v', rc_ok)
unfolding create_transport
create_transport-step sys own name names v v' e l = rw e (rw l refl)

-- A system in which every step of `create_transport` succeeds, and `fork` gives these process numbers.
pub record IsAble (sys : Processes) (pid : ℕ → ℕ) : Type 0 where
  pub signals : sys.signals ≡ true
  pub forks : (i : ℕ) → sys.fork i ≡ some (pid i)
  pub positive : (i : ℕ) → (0 < pid i) × (pid i < 2 ^ 31)
  pub block : sys.block ≡ true
  pub realloc : sys.realloc ≡ true
  pub blocks : (i : ℕ) → (block : Bytes) × (sys.blocks i ≡ some block)

-- The vector has one process number for each container, in order: 0 for the daemon's own, what `fork`
-- gave for the others; and on it `stop_worker` kills exactly the processes that were forked.
pub record Records (pid : ℕ → ℕ) (own : Bytes) (names : List Bytes) (v : Workers) : Type 0 where
  pub counted : v.nr_vector ≡ length names
  pub in_order :
      (j p : ℕ)
      → get_elem? (recorded pid own 0 names) j ≡ some p
      → get_obj v (pos j) ≡ ok (some (to_le 4 p), success)
  pub stopped : stop_worker v ≡ ok (started pid own 0 names)

-- When every step of the system succeeds, and `fork` gives positive numbers below 2 ^ 31,
-- `create_transport` forks one worker for each container on a list of at least one and fewer than 2
-- ^ 27 but that of the daemon itself, and leaves a vector with one process number for each
-- container on the list, in order: 0 for the daemon's own, what `fork` gave for the others. On this
-- vector `stop_worker` kills exactly the processes that were forked.
pub create_transport-recorded :
    (sys : Processes) (pid : ℕ → ℕ) (own name : Bytes) (names : List Bytes)
    → IsAble sys pid
    → length (name ∷ names) < 2 ^ 27
    → (v : Workers) × (create_transport sys own (name ∷ names) ≡ ok (some v, rc_ok))
      × Records pid own (name ∷ names) v
create_transport-recorded sys pid own name names able small =
    let all : List Bytes = name ∷ names in
    let n = length all in
    let ps = recorded pid own 0 all in
    let (bytes, slots, blank, e) =
      created sys (length names) small able.block able.realloc able.blocks in
    let rest = drop n slots in
    let same : length ps ≡ n = length-recorded pid own 0 all in
    (
      workers n bytes (pid_slots ps ++ rest),
      create_transport-step sys own name names (workers n bytes slots) _ e (
          create_loop-recorded sys pid able.signals able.forks own n bytes 0 [] slots all refl
            (omega arith) (omega arith) blank),
      record {
        counted = refl;
        in_order = λ j p at.
            let (g, l) = get_elem?-pid_slots ps rest j p at in
            get_obj-at n bytes j p _ g (omega (arith, same)) (omega arith);
        stopped = stop_worker-started pid own able.positive n bytes rest all refl (omega arith);
      },
    )
