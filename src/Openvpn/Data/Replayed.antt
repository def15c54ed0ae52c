-- ===== src/Openvpn/Data/Replayed.antt =====
-- A datagram that arrives twice.
use synology_filestation.Prelude.{
  ℕ, ◌≡◌, refl, sym, ap, ◌∙◌, Bool, true, Bool-cases, inl, inr, List, [], ◌∷◌, ◌++◌, take, Option,
  arith,
}
use synology_filestation.Prelude.Bytes.{from_be}
use synology_filestation.Openvpn.Crypto.{Hmac, Cipher}
use synology_filestation.Openvpn.Error.{Result, ok, err, panic, ◌>>=◌, replayed}
use synology_filestation.Openvpn.KeyId.{KeyId}
use synology_filestation.Openvpn.Replay
use synology_filestation.Openvpn.Replay.History.{Stamp, accepted, fresh_once}
use synology_filestation.Openvpn.Replay.Refine.{
  Refines, Refines-new, accept-Refines, accept-fresh, remember,
}
use synology_filestation.Openvpn.Data.{
  DataChannel, DataKeys, PeerId, new, authenticate, open_sealed, admit, decrypt,
}

-- The id that a plaintext starts with.
abbrev pub id_of : List ℕ → ℕ
id_of plaintext = from_be (take 4 plaintext)

module _ (hmac : Hmac) (cipher : Cipher) where
  -- The plaintext of a datagram, before the replay window is asked.
  unfoldable pub opened : DataChannel → List ℕ → Result (List ℕ)
  opened channel datagram = authenticate hmac cipher channel datagram >>= λ at.
      open_sealed hmac cipher channel datagram at

  unfoldable pub decrypt_all : DataChannel → List (List ℕ) → DataChannel
  decrypt_all channel [] = channel
  decrypt_all channel (datagram ∷ rest) = decrypt_all (decrypt hmac cipher channel datagram).0 rest

  decrypt-opened :
      (channel : DataChannel) (datagram : List ℕ)
      → decrypt hmac cipher channel datagram ≡ admit hmac cipher channel (opened channel datagram)
  unfolding decrypt opened
  decrypt-opened channel datagram = refl

  opened_same :
      (a b : DataChannel) (datagram : List ℕ)
      → a.keys ≡ b.keys
      → a.key_id ≡ b.key_id
      → opened a datagram ≡ opened b datagram
  unfolding opened authenticate open_sealed
  opened_same a b [] ek ei = refl
  opened_same a b (first ∷ bytes) ek ei = rw (ek, ei) refl

  -- A channel with the keys of another, whose window has accepted the ids of a history, among them
  -- those of an earlier history.
  record Tracks (origin channel : DataChannel) (earlier : List Stamp) : Type 0 where
    keys : channel.keys ≡ origin.keys
    key_id : channel.key_id ≡ origin.key_id
    history : List Stamp
    refines : Refines channel.replay history
    keeps : (id time : ℕ) → accepted earlier id time ≡ true → accepted history id time ≡ true

  remember_keeps :
      (verdict : Bool) (i s : ℕ) (h : List Stamp) (id time : ℕ)
      → accepted h id time ≡ true
      → accepted (remember verdict i s h) id time ≡ true
  unfolding remember accepted
  remember_keeps verdict i s h id time e = ground arith

  admit-Tracks :
      (origin channel : DataChannel) (h : List Stamp) (r : Result (List ℕ))
      → Tracks origin channel h
      → Tracks origin (admit hmac cipher channel r).0 h
  unfolding admit
  admit-Tracks origin channel h (ok p) t = record {
    keys = t.keys;
    key_id = t.key_id;
    history = remember (Replay.accept channel.replay (id_of p) 0).1 (id_of p) 0 t.history;
    refines = accept-Refines channel.replay t.history (id_of p) 0 t.refines;
    keeps = λ id time e. remember_keeps _ (id_of p) 0 t.history id time (t.keeps id time e);
  }
  admit-Tracks origin channel h (err e) t = t
  admit-Tracks origin channel h panic t = t

  decrypt_all-Tracks :
      (datagrams : List (List ℕ)) (origin channel : DataChannel) (h : List Stamp)
      → Tracks origin channel h
      → Tracks origin (decrypt_all channel datagrams) h
  unfolding decrypt_all
  decrypt_all-Tracks [] origin channel h t = t
  decrypt_all-Tracks (datagram ∷ rest) origin channel h t =
      decrypt_all-Tracks rest origin (decrypt hmac cipher channel datagram).0 h (
        rw (decrypt-opened channel datagram)
          (admit-Tracks origin channel h (opened channel datagram) t))

  -- A payload that comes out went in as a plaintext, and the window took its id.
  admit_ok :
      (channel : DataChannel) (r : Result (List ℕ)) (payload : List ℕ)
      → (admit hmac cipher channel r).1 ≡ ok payload
      → (p : List ℕ) × (r ≡ ok p) × ((Replay.accept channel.replay (id_of p) 0).1 ≡ true)
  unfolding admit
  admit_ok channel (ok p) payload e =
      elim (Bool-cases (Replay.accept channel.replay (id_of p) 0).1) [
        | inl taken ↦ (p, refl, taken)
        | inr refused ↦ absurd (ground arith)
      ]
  admit_ok channel (err e') payload e = absurd (ground arith)
  admit_ok channel panic payload e = absurd (ground arith)

  -- Once its id is in the history, a plaintext is refused.
  admit_again :
      (origin channel : DataChannel) (p : List ℕ)
      → Tracks origin channel ((id_of p, 0) ∷ [])
      → (admit hmac cipher channel (ok p)).1 ≡ err replayed
  unfolding admit accepted
  admit_again origin channel p t =
      let stale = fresh_once t.history (id_of p) 0 (t.keeps (id_of p) 0 (ground arith)) in
      rw (accept-fresh channel.replay t.history (id_of p) 0 t.refines, stale) refl

  taken-Tracks :
      (origin channel : DataChannel) (p : List ℕ)
      → Tracks origin channel []
      → (Replay.accept channel.replay (id_of p) 0).1 ≡ true
      → Tracks origin (admit hmac cipher channel (ok p)).0 ((id_of p, 0) ∷ [])
  unfolding admit remember accepted
  taken-Tracks origin channel p t taken = record {
    keys = t.keys;
    key_id = t.key_id;
    history = (id_of p, 0) ∷ t.history;
    refines = noted;
    keeps = first;
  }
    where
      noted : Refines (Replay.accept channel.replay (id_of p) 0).0 ((id_of p, 0) ∷ t.history)
      noted = rw taken at (accept-Refines channel.replay t.history (id_of p) 0 t.refines)

      first :
          (id time : ℕ)
          → accepted ((id_of p, 0) ∷ []) id time ≡ true
          → accepted ((id_of p, 0) ∷ t.history) id time ≡ true
      first id time e = ground arith

  decrypt_all-append :
      (before after : List (List ℕ)) (channel : DataChannel)
      → decrypt_all channel (before ++ after) ≡ decrypt_all (decrypt_all channel before) after
  unfolding decrypt_all
  decrypt_all-append [] after channel = refl
  decrypt_all-append (datagram ∷ before) after channel =
      decrypt_all-append before after (decrypt hmac cipher channel datagram).0

  refused_after :
      (origin channel : DataChannel) (between : List (List ℕ)) (datagram payload : List ℕ)
      → Tracks origin channel []
      → (decrypt hmac cipher channel datagram).1 ≡ ok payload
      → (decrypt hmac cipher (decrypt_all channel (datagram ∷ between)) datagram).1 ≡ err replayed
  unfolding decrypt_all
  refused_after origin channel between datagram payload t e =
      let (p, opens, taken) =
        admit_ok channel (opened channel datagram) payload
          (ap (λ r. r.1) (sym (decrypt-opened channel datagram)) ∙ e) in
      let step : (decrypt hmac cipher channel datagram).0 ≡ (admit hmac cipher channel (ok p)).0 =
        rw (decrypt-opened channel datagram, opens) refl in
      let later = decrypt_all (decrypt hmac cipher channel datagram).0 between in
      let t' : Tracks origin later ((id_of p, 0) ∷ []) =
        decrypt_all-Tracks between origin (decrypt hmac cipher channel datagram).0 _
          (rw step (taken-Tracks origin channel p t taken)) in
      let again : opened later datagram ≡ ok p =
        opened_same later channel datagram (t'.keys ∙ sym t.keys) (t'.key_id ∙ sym t.key_id)
        ∙ opens in
      rw (decrypt-opened later datagram, again) (admit_again origin later p t')

  new-Tracks :
      (keys : DataKeys) (peer_id : Option PeerId) (key_id : KeyId)
      → Tracks (new keys peer_id key_id) (new keys peer_id key_id) []
  unfolding new
  new-Tracks keys peer_id key_id = record {
    keys = refl;
    key_id = refl;
    history = [];
    refines = Refines-new;
    keeps = λ id time e. e;
  }

  -- Once `decrypt` of a new channel has returned the payload of a datagram, whatever came before, it
  -- refuses the same datagram as a replay ever after, whatever comes between.
  pub replay_refused :
      (keys : DataKeys) (peer_id : Option PeerId) (key_id : KeyId) (before between : List (List ℕ))
      (datagram payload : List ℕ)
      → (decrypt hmac cipher (decrypt_all (new keys peer_id key_id) before) datagram).1 ≡ ok payload
      → (decrypt hmac cipher
          (decrypt_all (new keys peer_id key_id) (before ++ (datagram ∷ between)))
          datagram).1
        ≡ err replayed
  replay_refused keys peer_id key_id before between datagram payload e =
      let origin = new keys peer_id key_id in
      rw (decrypt_all-append before (datagram ∷ between) origin) (
        refused_after origin (decrypt_all origin before) between datagram payload
          (decrypt_all-Tracks before origin origin [] (new-Tracks keys peer_id key_id)) e)
