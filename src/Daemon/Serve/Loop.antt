-- ===== src/Daemon/Serve/Loop.antt =====
-- The worker of src/icmpd/subcmd_start.c goes through all that it receives.
use inter_container_messagin.Base.{
  ℕ, zero, suc, ◌<◌, ◌≤◌, ◌≡◌, refl, Option, some, List, [], ◌∷◌, Run, ok, fault, exited, blocked,
  ◌>>=◌, length, arith,
}
use inter_container_messagin.Base.Word.{ℤ, pos, negsuc}
use inter_container_messagin.Message.{rc_ok}
use inter_container_messagin.Nanomsg.{Reception, fresh}
use inter_container_messagin.Transport.{Context, transport_receive_data, message_of, len_of}
use inter_container_messagin.Daemon.Exec.{Server, Surroundings}
use inter_container_messagin.Daemon.Serve.{
  Protocol, waiting, returned, handle_message, handle_protocol, worker,
}

-- Each message is handled once, in order, whatever the results were; failed receives are passed over.
unfoldable pub handle_all : Context → List Surroundings → Server → Run Server
handle_all tr [] s = ok s
handle_all tr (w ∷ rest) s = transport_receive_data w.traffic tr fresh (some 0) >>= λ r. elim r.rc [
  | pos zero ↦ handle_message w tr (message_of r) (len_of r) s >>= λ (s', rc). handle_all tr rest s'
  | failure ↦ handle_all tr rest s
]

abbrev pub finished : Run Server → Run (Option Server)
finished r = r >>= λ s'. ok (some s')

module _ (tr : Context) where
  -- What a round of `worker` makes of a run of `handle_protocol`.
  abbrev after : ℕ → Run Protocol → Run (Option Server)
  after fuel r =
      r >>= λ p. elim p [ waiting s' ↦ ok (some s') | returned rc s' rest ↦ worker tr fuel rest s' ]

  -- The claim for the rounds that are left.
  abbrev Finishes : List Surroundings → Type 0
  Finishes ws =
      (s : Server) (fuel : ℕ)
      → length ws ≤ fuel
      → after fuel (handle_protocol tr ws s) ≡ finished (handle_all tr ws s)

  -- A run of `handle_protocol` that returned is followed by another.
  again :
      (rest : List Surroundings) (s : Server) (fuel : ℕ)
      → Finishes rest
      → suc (length rest) ≤ fuel
      → worker tr fuel rest s ≡ finished (handle_all tr rest s)
  unfolding worker
  again rest s zero ih h = absurd (omega arith)
  again rest s (suc fuel) ih h = ih s fuel (omega arith)

  -- What `handle_protocol` does behind a message, by what became of it.
  abbrev behind_message : List Surroundings → Server × ℤ → Run Protocol
  behind_message rest (s', pos zero) = handle_protocol tr rest s'
  behind_message rest (s', other) = ok (returned other s' rest)

  next_message :
      (rest : List Surroundings) (fuel : ℕ) (r : Run (Server × ℤ))
      → Finishes rest
      → suc (length rest) ≤ fuel
      → after fuel (r >>= behind_message rest) ≡ finished (r >>= λ (s', rc). handle_all tr rest s')
  next_message rest fuel (ok (s', pos zero)) ih h = ih s' fuel (omega arith)
  next_message rest fuel (ok (s', pos (suc n))) ih h = again rest s' fuel ih h
  next_message rest fuel (ok (s', negsuc n)) ih h = again rest s' fuel ih h
  next_message rest fuel fault ih h = refl
  next_message rest fuel exited ih h = refl
  next_message rest fuel blocked ih h = refl

  -- The same behind a receive, by its result.
  next_receive :
      (rest : List Surroundings) (s : Server) (fuel : ℕ) (handled : Run (Server × ℤ)) (rc : ℤ)
      → Finishes rest
      → suc (length rest) ≤ fuel
      → after fuel (elim rc [
        | pos zero ↦ handled >>= λ x. behind_message rest x
        | failure ↦ ok (returned rc_ok s rest)
      ])
        ≡ finished (elim rc [
          | pos zero ↦ handled >>= λ (s', rc'). handle_all tr rest s'
          | failure ↦ handle_all tr rest s
        ])
  next_receive rest s fuel handled (pos zero) ih h = next_message rest fuel handled ih h
  next_receive rest s fuel handled (pos (suc n)) ih h = again rest s fuel ih h
  next_receive rest s fuel handled (negsuc n) ih h = again rest s fuel ih h

  next_round :
      (w : Surroundings) (rest : List Surroundings) (s : Server) (fuel : ℕ)
      (received : Run Reception)
      → Finishes rest
      → suc (length rest) ≤ fuel
      → after fuel (
          received >>= λ r. elim r.rc [
            | pos zero ↦
                handle_message w tr (message_of r) (len_of r) s >>= λ x. behind_message rest x
            | failure ↦ ok (returned rc_ok s rest)
          ])
        ≡ finished (
            received >>= λ r. elim r.rc [
              | pos zero ↦ handle_message w tr (message_of r) (len_of r) s >>= λ (s', rc).
                  handle_all tr rest s'
              | failure ↦ handle_all tr rest s
            ])
  next_round w rest s fuel (ok r) ih h =
      next_receive rest s fuel (handle_message w tr (message_of r) (len_of r) s) r.rc ih h
  next_round w rest s fuel fault ih h = refl
  next_round w rest s fuel exited ih h = refl
  next_round w rest s fuel blocked ih h = refl

  rounds : (ws : List Surroundings) → Finishes ws
  unfolding handle_protocol handle_all
  rounds [] s fuel h = refl
  rounds (w ∷ rest) s fuel h =
      next_round w rest s fuel (transport_receive_data w.traffic tr fresh (some 0)) (rounds rest) h

  -- The worker handles everything that it receives, once and in order: `handle_protocol` is called
  -- again whenever it returns, so an error in one request or a failed receive does not keep the next
  -- from being handled, unless the process faults, exits or stays in a call. One round for each
  -- receive, and one to wait, is fuel enough.
  pub worker-handle_all :
      (ws : List Surroundings) (s : Server) (fuel : ℕ)
      → length ws < fuel
      → worker tr fuel ws s ≡ finished (handle_all tr ws s)
  unfolding worker
  worker-handle_all ws s zero h = absurd (omega arith)
  worker-handle_all ws s (suc fuel) h = rounds ws s fuel (omega arith)
