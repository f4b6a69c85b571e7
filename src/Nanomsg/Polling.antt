-- ===== src/Nanomsg/Polling.antt =====
-- `nanomsg_pollin` of src/lib/nanomsg.c by the events that the poll gives.
use inter_container_messagin.Base.{
  ℕ, zero, suc, ◌≡◌, refl, ◌∙◌, Bool, true, false, List, [], ◌∷◌, ◌++◌, ok, exited, length,
  replicate, arith,
}
use inter_container_messagin.Base.Word.{pos}
use inter_container_messagin.Nanomsg.{Call, gave, first_ready, pollin}
use inter_container_messagin.Nanomsg.Retry.{interrupted}

poll-interrupted :
    (eintr k sock : ℕ) (socks : List ℕ) (events : List Bool) (calls : List (Call (List Bool)))
    → pollin eintr (sock ∷ socks) (interrupted eintr k ++ (gave events ∷ calls))
      ≡ first_ready (sock ∷ socks) events
unfolding pollin
poll-interrupted eintr zero sock socks events calls = refl
poll-interrupted eintr (suc k) sock socks events calls =
    ground (arith, poll-interrupted eintr k sock socks events calls)

ready_front :
    (before : List ℕ) (sock : ℕ) (behind : List ℕ) (events : List Bool)
    → first_ready (before ++ (sock ∷ behind)) (replicate (length before) false ++ (true ∷ events))
      ≡ ok (pos sock)
unfolding first_ready
ready_front [] sock behind events = refl
ready_front (s ∷ before) sock behind events = ready_front before sock behind events

idle : (socks : List ℕ) → first_ready socks (replicate (length socks) false) ≡ exited
unfolding first_ready
idle [] = refl
idle (s ∷ socks) = idle socks

-- The poll of some sockets, however often it was interrupted, gives the first one that is ready, and
-- ends the process if none is.
pub pollin-first :
    (eintr k : ℕ) (before behind : List ℕ) (sock : ℕ) (events : List Bool)
    (calls : List (Call (List Bool)))
    → (pollin eintr (before ++ (sock ∷ behind)) (
          interrupted eintr k
          ++ (gave (replicate (length before) false ++ (true ∷ events)) ∷ calls))
        ≡ ok (pos sock))
      × (pollin eintr
            (sock ∷ behind)
            (interrupted eintr k ++ (gave (replicate (length (sock ∷ behind)) false) ∷ calls))
          ≡ exited)
pollin-first eintr k [] behind sock events calls = (
  poll-interrupted eintr k sock behind _ calls ∙ (ready_front [] sock behind events),
  poll-interrupted eintr k sock behind _ calls ∙ (idle (sock ∷ behind)),
)
pollin-first eintr k (s ∷ before) behind sock events calls = (
  poll-interrupted eintr k s (before ++ (sock ∷ behind)) _ calls
      ∙ (ready_front (s ∷ before) sock behind events),
  poll-interrupted eintr k sock behind _ calls ∙ (idle (sock ∷ behind)),
)
