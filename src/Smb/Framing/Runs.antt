-- ===== src/Smb/Framing/Runs.antt =====
-- Messages over a stream.
use synology_filestation.Prelude.{ℕ, ◌≡◌, refl, List, [], ◌∷◌, take, arith}
use synology_filestation.Smb.Framing.{err, invalid_data, ended, unexpected_eof, receive, send}
use synology_filestation.Smb.Framing.Cut.{
  at, send_all, receive_all, whole_within, receive_all-send_all,
}

abbrev messages : List (List ℕ)
messages = (254 ∷ 83 ∷ []) ∷ [] ∷ (9 ∷ 8 ∷ 7 ∷ []) ∷ []

header_run : (send [] (9 ∷ 8 ∷ [])).0 ≡ 0 ∷ 0 ∷ 0 ∷ 2 ∷ 9 ∷ 8 ∷ []
unfolding send
header_run = refl

misplaced_run : (receive (at (1 ∷ 0 ∷ 0 ∷ 0 ∷ []) unexpected_eof)).1 ≡ err invalid_data
unfolding receive
misplaced_run = refl

receive_all-send_all_example :
    receive_all 4 (at (take 11 (send_all [] messages)) unexpected_eof)
    ≡ (take (whole_within 11 messages) messages, err (ended unexpected_eof))
receive_all-send_all_example =
    receive_all-send_all messages 11 unexpected_eof (omega arith, (omega arith, (omega arith, tt)))
