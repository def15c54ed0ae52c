-- ===== src/Openvpn/Session/Tunnel/Heard.antt =====
-- The method `handle` keeps a session consistent.
use synology_filestation.Prelude.{ℕ, some, none, Option-cases, inl, inr, List, All}
use synology_filestation.Prelude.Bytes.{IsByte}
use synology_filestation.Openvpn.Error.{Result}
use synology_filestation.Openvpn.Error.Ensures.{Anything, Ensures, fails}
use synology_filestation.Openvpn.Prf.{KeySource2}
use synology_filestation.Openvpn.Session.{Session, Suite}
use synology_filestation.Openvpn.Session.Handle.{
  handle, hear, read_records, then_renegotiate, then_push, then_keys, then_drain, then_offer,
  then_read,
}
use synology_filestation.Openvpn.Session.Keys.{
  send_our_key_material, drain_plaintext, receive_their_key_material,
}
use synology_filestation.Openvpn.Session.Push.{receive_push_reply}
use synology_filestation.Openvpn.Session.Renegotiate.{begin_renegotiation, advance_renegotiation}
use synology_filestation.Openvpn.Session.Tunnel.{IsConsistent, Kept, and_then-Kept}
use synology_filestation.Openvpn.Session.Tunnel.Exchanged.{
  send_our_key_material-Kept, drain_plaintext-Kept, receive_their_key_material-Kept,
}
use synology_filestation.Openvpn.Session.Tunnel.Moved.{
  KeptIfEnded, and_then_ended-Kept, hear-Kept, read_records-Kept,
}
use synology_filestation.Openvpn.Session.Tunnel.Opened.{receive_push_reply-Kept}
use synology_filestation.Openvpn.Session.Tunnel.Rotated.{begin_renegotiation-Kept}
use synology_filestation.Openvpn.Session.Tunnel.Advanced.{advance_renegotiation-Kept}
use synology_filestation.Openvpn.Session.Tunnel.Sent.{failing-IsConsistent}

module _ {Conn : Type 0} (suite : Suite Conn) where
  then_renegotiate-Kept :
      (connection : Result Conn) (source : KeySource2) (s : Session Conn)
      → Ensures Anything connection
      → IsConsistent s
      → Kept (then_renegotiate suite connection source s)
  unfolding then_renegotiate
  then_renegotiate-Kept connection source s fine h =
      and_then-Kept (begin_renegotiation s connection source)
        (λ s' _. advance_renegotiation suite s')
        (begin_renegotiation-Kept s connection source fine h)
        (λ t _ ht. advance_renegotiation-Kept suite t ht)

  then_push-Kept :
      (connection : Result Conn) (source : KeySource2) (s : Session Conn)
      → Ensures Anything connection
      → IsConsistent s
      → Kept (then_push suite connection source s)
  unfolding then_push
  then_push-Kept connection source s fine h =
      and_then-Kept (receive_push_reply suite s)
        (λ s' _. then_renegotiate suite connection source s') (receive_push_reply-Kept suite s h)
        (λ t _ ht. then_renegotiate-Kept connection source t fine ht)

  then_keys-Kept :
      (connection : Result Conn) (source : KeySource2) (s : Session Conn)
      → Ensures Anything connection
      → IsConsistent s
      → Kept (then_keys suite connection source s)
  unfolding then_keys
  then_keys-Kept connection source s fine h =
      and_then-Kept (receive_their_key_material suite s)
        (λ s' _. then_push suite connection source s') (receive_their_key_material-Kept suite s h)
        (λ t _ ht. then_push-Kept connection source t fine ht)

  then_drain-Kept :
      (connection : Result Conn) (source : KeySource2) (s : Session Conn)
      → Ensures Anything connection
      → IsConsistent s
      → Kept (then_drain suite connection source s)
  unfolding then_drain
  then_drain-Kept connection source s fine h =
      and_then-Kept (drain_plaintext suite s) (λ s' _. then_keys suite connection source s')
        (drain_plaintext-Kept suite s h) (λ t _ ht. then_keys-Kept connection source t fine ht)

  then_offer-Kept :
      (connection : Result Conn) (source : KeySource2) (s : Session Conn)
      → Ensures Anything connection
      → IsConsistent s
      → Kept (then_offer suite connection source s)
  unfolding then_offer
  then_offer-Kept connection source s fine h =
      and_then-Kept (send_our_key_material suite s) (λ s' _. then_drain suite connection source s')
        (send_our_key_material-Kept suite s h)
        (λ t _ ht. then_drain-Kept connection source t fine ht)

  then_read-Kept :
      (more : ℕ) (connection : Result Conn) (source : KeySource2) (s : Session Conn)
      → Ensures Anything connection
      → IsConsistent s
      → KeptIfEnded suite (then_read suite more connection source s)
  unfolding then_read
  then_read-Kept more connection source s fine h =
      and_then_ended-Kept suite (read_records suite more s)
        (λ s'. some (then_offer suite connection source s')) (read_records-Kept suite more s h)
        (λ t ht. then_offer-Kept connection source t fine ht)

  pub handle-Kept :
      (more : ℕ) (s : Session Conn) (datagram : List ℕ) (connection : Result Conn)
      (source : KeySource2)
      → All IsByte datagram
      → Ensures Anything connection
      → IsConsistent s
      → KeptIfEnded suite (handle suite more s datagram connection source)
  unfolding handle
  handle-Kept more s datagram connection source bytes fine h = elim (Option-cases s.failure) [
    | inr (e, failed) ↦ rw (failed, handle) (failing-IsConsistent s none h, fails)
    | inl well ↦
        rw (well, handle)
          (and_then_ended-Kept suite (some (hear suite s datagram))
            (λ s'. then_read suite more connection source s') (hear-Kept suite s datagram bytes h)
            (λ t ht. then_read-Kept more connection source t fine ht))
  ]
