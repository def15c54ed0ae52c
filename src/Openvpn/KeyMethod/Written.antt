-- ===== src/Openvpn/KeyMethod/Written.antt =====
-- The client's message is written or refused.
use synology_filestation.Prelude.{ℕ, ◌+◌, ◌^◌, List, [], ◌∷◌, ◌++◌, length, ltb}
use Prim.Native.String.{String}
use synology_filestation.Prelude.Bytes.{be16, be32}
use synology_filestation.Openvpn.Error.{ok, err, field_too_long}
use synology_filestation.Openvpn.Error.Ensures.{
  Anything, Ensures, returns, fails, Ensures-bind, Ensures-if,
}
use synology_filestation.Openvpn.KeyMethod.{ClientKeyMethod2, key_method_2, write_string, encode}

write_string-Ensures :
    (out bytes : List ℕ) (context : String) → Ensures Anything (write_string out bytes context)
unfolding write_string
write_string-Ensures out [] context = returns tt
write_string-Ensures out (x ∷ xs) context =
    Ensures-if {P = Anything} (ltb (length (x ∷ xs) + 1) (2 ^ 16))
      (ok (out ++ (be16 (length (x ∷ xs) + 1) ++ ((x ∷ xs) ++ (0 ∷ [])))))
      (err (field_too_long context)) (λ _. returns tt) (λ _. fails)

pub encode-Ensures : (m : ClientKeyMethod2) → Ensures Anything (encode m)
unfolding encode
encode-Ensures m =
    Ensures-bind _
      (write_string-Ensures
        (be32 0
          ++ (key_method_2
              ∷ (m.source.pre_master ++ (m.source.client_random1 ++ m.source.client_random2))))
        m.options "the options string")
      (λ out _. Ensures-bind _ (write_string-Ensures out m.username "the username") (λ out' _.
        Ensures-bind _ (write_string-Ensures out' m.password "the password")
          (λ out'' _. write_string-Ensures out'' m.peer_info "the peer info")))
