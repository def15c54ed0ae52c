-- ===== src/Openvpn/Replay.antt =====
-- rust/synology-filestation-openvpn/src/replay.rs: the sliding window that refuses packets seen
-- before. The fields are u32, u32 and u64; `<<` is truncated to 64 bits.
pub mod History
pub mod Refine
mod Runs
use synology_filestation.Prelude.{
  ℕ, ◌+◌, ◌-◌, ◌*◌, ◌%◌, ◌^◌, Bool, true, false, ltb, leb, ◌==◌, if◌then◌else◌, bit_and, bit_or,
}

-- How far behind the highest id is still accepted.
abbrev pub window : ℕ
window = 64

pub record ReplayWindow : Type 0 where
  pub time : ℕ
  pub highest : ℕ
  pub seen : ℕ

abbrev pub new : ReplayWindow
new = record { time = 0; highest = 0; seen = 0 }

unfoldable pub accept : ReplayWindow → ℕ → ℕ → ReplayWindow × Bool
accept w packet_id net_time =
    if packet_id == 0
    then (w, false)
    else if ltb w.time net_time
    then (record { time = net_time; highest = packet_id; seen = 1 }, true)
    else if ltb net_time w.time
    then (w, false)
    else if ltb w.highest packet_id
    then (
      let advance = packet_id - w.highest in
          record w {
            seen = if leb 64 advance then 1 else bit_or (w.seen * 2 ^ advance % 2 ^ 64) 1;
            highest = packet_id;
          },
      true,
    )
    else (let behind = w.highest - packet_id in
        if leb window behind
        then (w, false)
        else if bit_and w.seen (2 ^ behind) == 0
        then (record w { seen = bit_or w.seen (2 ^ behind) }, true)
        else (w, false))
