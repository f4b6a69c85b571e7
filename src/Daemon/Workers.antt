-- ===== src/Daemon/Workers.antt =====
-- The workers of the daemon, one process for each container that it monitors: `create_worker`,
-- `create_transport` and `stop_worker` of src/icmpd/subcmd_start.c. A process number takes the four
-- bytes of `pid_t`.
pub mod Blank
pub mod Stopped
pub mod Recorded
use inter_container_messagin.Base.{
  ℕ, zero, suc, Bool, true, false, Option, none, some, List, [], ◌∷◌, Bytes, Run, ok, fault, exited,
  ◌>>=◌, ◌==◌, if◌then◌else◌, length, bytes_eq,
}
use inter_container_messagin.Base.Word.{ℤ, to_int}
use inter_container_messagin.Message.{rc_ok, rc_error, to_le, from_le}
use inter_container_messagin.Vector.{Vector}
use inter_container_messagin.Vector.Slots.{get_obj, set_obj}
use inter_container_messagin.Vector.Lifetime.{vector_create}

-- The system under `create_transport`: whether the signal handlers can be set, the process number
-- that `fork` gives for the container at an index, and the allocations of the vector of workers.
pub record Processes : Type 0 where
  pub signals : Bool
  pub fork : ℕ → Option ℕ
  pub block : Bool
  pub realloc : Bool
  pub blocks : ℕ → Option Bytes

-- The vector of process numbers
abbrev pub Workers : Type 0
Workers = Vector (Unit {0})

abbrev pub pid_size : ℕ
pid_size = 4

module _ (sys : Processes) where
  -- `create_worker` in the parent, which exits if a step fails. The child is the worker of Serve.
  unfoldable pub create_worker : ℕ → Run ℕ
  create_worker i =
      if sys.signals then elim (sys.fork i) [ none ↦ exited | some pid ↦ ok pid ] else exited

  -- The loop over the monitored containers from index `i`. The worker has a process number that is not
  -- negative, so the way out that would stop the workers is never taken.
  unfoldable pub create_loop : Bytes → ℕ → List Bytes → Workers → Run Workers
  unfolding create_worker
  create_loop container_name i [] v = ok v
  create_loop container_name i (name ∷ names) v =
      (if bytes_eq name container_name then ok 0 else create_worker i) >>= λ child.
      set_obj v (to_int i) (to_le pid_size child) pid_size >>= λ (v', status).
      create_loop container_name (suc i) names v'

  -- `create_transport`: the vector of workers, if there is one, and the return value
  unfoldable pub create_transport : Bytes → List Bytes → Run (Option Workers × ℤ)
  unfolding create_loop
  create_transport container_name [] = ok (none, rc_ok)
  create_transport container_name (name ∷ names) =
      vector_create sys.block sys.realloc sys.blocks (length (name ∷ names)) pid_size none none none
        true false
      >>= λ (created, status). elim created [
        | none ↦ ok (none, rc_error)
        | some v ↦ create_loop container_name 0 (name ∷ names) v >>= λ v'. ok (some v', rc_ok)
      ]

-- The loop of `stop_worker` over `n` workers from worker `i`: the processes that are killed, in order.
unfoldable pub stop_loop : Workers → ℕ → ℕ → Run (List ℕ)
stop_loop v i zero = ok []
stop_loop v i (suc n) = get_obj v (to_int i) >>= λ (child, status).
    let rest = stop_loop v (suc i) n in
    elim child [
      | none ↦ fault
      | some pid ↦ if from_le pid == 0 then rest else (rest >>= λ more. ok (from_le pid ∷ more))
    ]

unfoldable pub stop_worker : Workers → Run (List ℕ)
unfolding stop_loop
stop_worker v = stop_loop v 0 v.nr_vector
