-- ===== src/Transport/Carried.antt =====
-- What a transport of src/lib/transport.c carries when the calls of nanomsg succeed in the end.
use inter_container_messagin.Base.{
  ℕ, ◌^◌, ◌<◌, ◌≡◌, refl, Option, some, [], ◌∷◌, ◌++◌, Bytes, Run, ok, blocked, length, arith,
}
use inter_container_messagin.Base.Word.{ℤ}
use inter_container_messagin.Message.{rc_ok}
use inter_container_messagin.Bcll.{bcll_del}
use inter_container_messagin.Nanomsg.{gave, fresh, buffer, Library, destroy_socket, delete_endpoint}
use inter_container_messagin.Nanomsg.Retry.{
  interrupted, send_data-whole, receive_data-retries, receive-waiting,
}
use inter_container_messagin.Transport.{
  Context, Traffic, Transports, slave_transport_ops, transport_send_data, transport_receive_data,
  transport_handle_data, transport_destroy,
}
use inter_container_messagin.Transport.Opened.{opened}

module _ (traffic : Traffic) (ctx : Context) (k : ℕ) (msg : Bytes) where
  -- Sending a message of fewer than 2 ^ 31 bytes succeeds when `nn_send` takes it whole, after any
  -- number of interruptions.
  pub transport_send_data-sent :
      traffic.sending ctx.sock msg ≡ interrupted traffic.eintr k ++ (gave (length msg) ∷ [])
      → length msg < 2 ^ 31
      → transport_send_data traffic ctx msg ≡ ok rc_ok
  unfolding transport_send_data
  transport_send_data-sent e small =
      rw e (send_data-whole traffic.eintr k (length msg) traffic.errno [] small)

  module _ (e : traffic.receiving ctx.sock ≡ interrupted traffic.eintr k ++ (gave msg ∷ []))
      (small : length msg < 2 ^ 31) where
    -- A message that comes in after any number of interruptions is received with its length.
    pub transport_receive_data-received :
        transport_receive_data traffic ctx fresh (some 0)
        ≡ ok (record { rc = rc_ok; message = buffer msg; len = some (length msg) })
    unfolding transport_receive_data
    transport_receive_data-received =
        rw e (receive_data-retries traffic.eintr k 0 traffic.errno msg [] small)

    -- It is given to the handler once, which decides the result.
    pub transport_handle_data-handled :
        {S : Type 0} (h : Option Bytes → ℕ → S → Run (S × ℤ)) (s : S)
        → transport_handle_data traffic ctx (some h) s ≡ h (some msg) (length msg) s
    unfolding transport_handle_data
    transport_handle_data-handled h s = rw transport_receive_data-received refl

-- While nothing but interruptions comes in, the reception does not end.
pub transport_receive_data-waiting :
    (traffic : Traffic) (ctx : Context) (k : ℕ)
    → traffic.receiving ctx.sock ≡ interrupted traffic.eintr k
    → transport_receive_data traffic ctx fresh (some 0) ≡ blocked
unfolding transport_receive_data
transport_receive_data-waiting traffic ctx k e =
    rw e (receive-waiting traffic.eintr k 0 traffic.errno)

delete_endpoint_lem : (lib : Library) (sock ep : ℕ) → delete_endpoint lib sock ep ≡ ok tt
unfolding delete_endpoint
delete_endpoint_lem lib sock ep = ground arith

destroy_socket-closed :
    (lib : Library) (sock : ℕ) → lib.close sock ≡ gave tt → destroy_socket lib sock ≡ ok tt
unfolding destroy_socket
destroy_socket-closed lib sock e = rw (destroy_socket, e) refl

-- A slave transport whose socket can be closed at the first try is destroyed.
pub transport_destroy-closed :
    {S : Type 0} (lib : Library) (name : Bytes) (sock ep link : ℕ) (ts : Transports S)
    → lib.close sock ≡ gave tt
    → transport_destroy (opened name sock ep (slave_transport_ops lib) link) ts
      ≡ ok (record ts { links = bcll_del ts.links link })
unfolding transport_destroy
transport_destroy-closed lib name sock ep link ts e =
    rw (delete_endpoint_lem lib sock ep, destroy_socket-closed lib sock e) refl
