-- ===== src/Daemon/Workers/Stopped.antt =====
-- The processes that `stop_worker` of src/icmpd/subcmd_start.c finds in a vector of workers.
use inter_container_messagin.Base.{
  ℕ, suc, ◌+◌, ◌^◌, ◌≤◌, ◌<◌, ◌≡◌, refl, ap, sym, ◌∙◌, some, List, [], ◌∷◌, Bytes, ok, ◌==◌,
  if◌then◌else◌, length, bytes_eq, arith, ◌++◌, append_assoc,
}
use inter_container_messagin.Base.Word.{to_int}
use inter_container_messagin.Message.{to_le, from_le}
use inter_container_messagin.ErrorCode.{success}
use inter_container_messagin.Vector.{Slot, object}
use inter_container_messagin.Vector.Slots.{get_obj}
use inter_container_messagin.Daemon.Workers.{Workers, stop_loop, stop_worker}
use inter_container_messagin.Daemon.Workers.Blank.{workers, get_elem?-middle, length-snoc}

-- The process numbers that are recorded from index `i` on: 0 for the container of the daemon itself,
-- and what `fork` gave for the others.
abbrev pub recorded : (ℕ → ℕ) → Bytes → ℕ → List Bytes → List ℕ
recorded pid own i [] = []
recorded pid own i (name ∷ names) =
    (if bytes_eq name own then 0 else pid i) ∷ recorded pid own (suc i) names

-- Those of the other containers
abbrev pub started : (ℕ → ℕ) → Bytes → ℕ → List Bytes → List ℕ
started pid own i [] = []
started pid own i (name ∷ names) =
    if bytes_eq name own
    then started pid own (suc i) names
    else pid i ∷ started pid own (suc i) names

abbrev pub pid_slots : List ℕ → List Slot
pid_slots [] = []
pid_slots (pid ∷ pids) = object (some (to_le 4 pid)) ∷ pid_slots pids

nonzero : List ℕ → List ℕ
nonzero [] = []
nonzero (p ∷ ps) = if p == 0 then nonzero ps else p ∷ nonzero ps

-- What the loop of `stop_worker` finds
get_obj-middle :
    (n bytes p : ℕ) (front rest : List Slot)
    → length front < n
    → n < 2 ^ 31
    → get_obj
        (workers n bytes (front ++ (object (some (to_le 4 p)) ∷ rest)))
        (to_int (length front))
      ≡ ok (some (to_le 4 p), success)
unfolding get_obj
get_obj-middle n bytes p front rest h small =
    ground (arith, get_elem?-middle front rest (object (some (to_le 4 p))))

from_le-to_le : (p : ℕ) → p < 2 ^ 31 → from_le (to_le 4 p) ≡ p
unfolding from_le to_le
from_le-to_le p h = omega arith

abbrev AreSmall : List ℕ → Type 0
AreSmall [] = Unit
AreSmall (p ∷ ps) = (p < 2 ^ 31) × AreSmall ps

stop_loop-step :
    (v : Workers) (i n p : ℕ) (more : List ℕ)
    → get_obj v (to_int i) ≡ ok (some (to_le 4 p), success)
    → p < 2 ^ 31
    → stop_loop v (suc i) n ≡ ok more
    → stop_loop v i (suc n) ≡ ok (if p == 0 then more else p ∷ more)
unfolding stop_loop
stop_loop-step v i n p more g h e = rw g (rw (from_le-to_le p h, e) (ground arith))

stop_loop-nonzero :
    (n bytes i : ℕ) (front rest : List Slot) (ps : List ℕ)
    → i ≡ length front
    → length front + length ps ≤ n
    → n < 2 ^ 31
    → AreSmall ps
    → stop_loop (workers n bytes (front ++ (pid_slots ps ++ rest))) i (length ps) ≡ ok (nonzero ps)
unfolding stop_loop nonzero
stop_loop-nonzero n bytes i front rest [] e h small s = refl
stop_loop-nonzero n bytes i front rest (p ∷ ps) e h small (sp, s) =
    let new : Slot = object (some (to_le 4 p)) in
    stop_loop-step (workers n bytes (front ++ (new ∷ (pid_slots ps ++ rest)))) i (length ps) p
      (nonzero ps)
      (ap (λ k. get_obj (workers n bytes (front ++ (new ∷ (pid_slots ps ++ rest)))) (to_int k)) e
        ∙ get_obj-middle n bytes p front (pid_slots ps ++ rest) (omega arith) small)
      sp
      (ap (λ l. stop_loop (workers n bytes l) (suc i) (length ps))
          (sym (append_assoc front (new ∷ []) (pid_slots ps ++ rest)))
        ∙ stop_loop-nonzero n bytes (suc i) (front ++ (new ∷ [])) rest ps
            (ap suc e ∙ sym (length-snoc front new)) (omega (arith, length-snoc front new)) small s)

pub length-recorded :
    (pid : ℕ → ℕ) (own : Bytes) (i : ℕ) (names : List Bytes)
    → length (recorded pid own i names) ≡ length names
length-recorded pid own i [] = refl
length-recorded pid own i (name ∷ names) = rw (length-recorded pid own (suc i) names)

module _ (pid : ℕ → ℕ) (own : Bytes) (positive : (i : ℕ) → (0 < pid i) × (pid i < 2 ^ 31)) where
  recorded-AreSmall : (i : ℕ) (names : List Bytes) → AreSmall (recorded pid own i names)
  recorded-AreSmall i [] = tt
  recorded-AreSmall i (name ∷ names) =
      (ground (arith, (positive i).1), recorded-AreSmall (suc i) names)

  nonzero-recorded :
      (i : ℕ) (names : List Bytes) → nonzero (recorded pid own i names) ≡ started pid own i names
  unfolding nonzero
  nonzero-recorded i [] = refl
  nonzero-recorded i (name ∷ names) = ground (arith, (positive i).0, nonzero-recorded (suc i) names)

pub stop_worker-started :
    (pid : ℕ → ℕ) (own : Bytes)
    → ((i : ℕ) → (0 < pid i) × (pid i < 2 ^ 31))
    → (n bytes : ℕ) (rest : List Slot) (names : List Bytes) → n ≡ length names
    → n < 2 ^ 31
    → stop_worker (workers n bytes (pid_slots (recorded pid own 0 names) ++ rest))
      ≡ ok (started pid own 0 names)
unfolding stop_worker
stop_worker-started pid own positive n bytes rest names e small =
    let ps = recorded pid own 0 names in
    let same : length ps ≡ length names = length-recorded pid own 0 names in
    ap (λ k. stop_loop (workers n bytes (pid_slots ps ++ rest)) 0 k) (e ∙ sym same)
    ∙ stop_loop-nonzero n bytes 0 [] rest ps refl (omega (arith, e, same)) small
        (recorded-AreSmall pid own positive 0 names)
    ∙ ap ok (nonzero-recorded pid own positive 0 names)
