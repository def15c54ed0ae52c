-- ===== src/Openvpn/KeyMethod/Runs.antt =====
-- Runs of the key-exchange messages: what is written and read, and what is refused.
use synology_filestation.Prelude.{ℕ, ◌≡◌, refl, List, [], ◌∷◌, ◌++◌, replicate, range?}
use synology_filestation.Prelude.Bytes.{same}
use synology_filestation.Openvpn.Error.{ok, err, truncated, unsupported_key_method}
use synology_filestation.Openvpn.KeyMethod.{key_method2, control, write_string, encode, decode}
use synology_filestation.Openvpn.Prf.{new_client}
use synology_filestation.Openvpn.KeyMethod.Reading.{Settled}
use synology_filestation.Openvpn.KeyMethod.Stream.{IsRead, decode-Settled}
use synology_filestation.Openvpn.KeyMethod.RoundTrip.{server_message, decode-server_message}

-- Texts here are valid.
abbrev valid : List ℕ → List ℕ
valid text = text

-- `AUTH_FAILED` without its NUL, and with it.
abbrev auth_failed_text : List ℕ
auth_failed_text = 65 ∷ 85 ∷ 84 ∷ 72 ∷ []

control_run : decode valid (auth_failed_text ++ (0 ∷ 1 ∷ [])) ≡ ok (control auth_failed_text, 5)
unfolding decode same
control_run = refl

half_run : decode valid auth_failed_text ≡ err (truncated "a control message")
unfolding decode same
half_run = refl

method_run : decode valid (0 ∷ 0 ∷ 0 ∷ 0 ∷ 1 ∷ []) ≡ err (unsupported_key_method 1)
unfolding decode same range?
method_run = refl

encode_run :
    encode (record {
      source = new_client (4 ∷ []) (5 ∷ []) (6 ∷ []);
      options = 86 ∷ 52 ∷ [];
      username = [];
      password = 112 ∷ [];
      peer_info = [];
    })
    ≡ ok
        (0 ∷ 0 ∷ 0 ∷ 0 ∷ 2 ∷ 4 ∷ 5 ∷ 6 ∷ 0 ∷ 3 ∷ 86 ∷ 52 ∷ 0 ∷ 0 ∷ 0 ∷ 0 ∷ 2 ∷ 112 ∷ 0 ∷ 0 ∷ 0 ∷ [])
unfolding encode new_client
encode_run = refl

decode-Settled_example :
    Settled
      (IsRead 4)
      (decode valid auth_failed_text)
      (decode valid (auth_failed_text ++ (0 ∷ 1 ∷ [])))
decode-Settled_example = decode-Settled valid auth_failed_text (0 ∷ 1 ∷ [])

abbrev sample_message : List ℕ
sample_message =
    (0 ∷ 0 ∷ 0 ∷ 0 ∷ 2 ∷ (replicate 32 7 ++ replicate 32 9))
    ++ (0 ∷ 3 ∷ 86 ∷ 52 ∷ 0 ∷ 0 ∷ 0 ∷ 0 ∷ 0 ∷ 0 ∷ 2 ∷ 112 ∷ 0 ∷ [])

written :
    server_message (replicate 32 7) (replicate 32 9) (86 ∷ 52 ∷ []) [] [] (112 ∷ [])
    ≡ ok sample_message
unfolding server_message write_string
written = refl

decode-server_message_example :
    decode valid (sample_message ++ (1 ∷ []))
    ≡ ok (
      key_method2
          (record { random1 = replicate 32 7; random2 = replicate 32 9; options = 86 ∷ 52 ∷ [] }),
      82,
    )
decode-server_message_example =
    decode-server_message (replicate 32 7) (replicate 32 9) (86 ∷ 52 ∷ []) [] [] (112 ∷ [])
      sample_message (1 ∷ []) valid refl refl refl refl refl refl written
