-- ===== src/Tests/Gb28181.antt =====
-- gb28181 at concrete inputs.
use lalmax.Base.{
  ℕ, ◌≤◌, ◌≡◌, refl, arith, true, false, List, [], ◌∷◌, ◌++◌, Option, none, some, All, ◌==◌,
  if◌then◌else◌,
}
use lalmax.Gb28181.Ports.{AvailConnPool, acquire}
use lalmax.Gb28181.Ports.Acquire.{IsPool, Search, acquire-Search, acquire-IsPool}
use lalmax.Gb28181.Ptz.{Ptz, Fi, Cruise, ptz_bytes, ptz_pack, fi_bytes, cruise_bytes}
use lalmax.Gb28181.Ptz.Commands.{frame, ptz_bytes-frame, fi_bytes-frame, cruise_bytes-frame}
use lalmax.Gb28181.Ptz.Hex.{receive, IsReadable, receive-ptz_pack}
use lalmax.Gb28181.Conn.{split_ps_packets, demuxer}
use lalmax.Gb28181.Conn.Split.{
  join, tail, IsPackStart, kept, split_ps_packets-join, split_ps_packets-tail, demuxer-keeps,
}

abbrev only_30001 : ℕ → Option ℕ
only_30001 p = if p == 30001 then some p else none

abbrev pool : AvailConnPool ℕ
pool = record {
  min_port = 30000;
  max_port = 30002;
  last_port = 30002;
  on_listen_with_port = some only_30001;
}

pool-IsPool : IsPool pool
pool-IsPool = record { low = omega arith; high = omega arith; width = omega arith }

acquire-Search_example : Search pool only_30001 (λ q. (30000 ≤ q) × (q ≤ 30002)) (acquire pool)
acquire-Search_example = acquire-Search pool only_30001 pool-IsPool refl

acquire-IsPool_example : IsPool (acquire pool).1
acquire-IsPool_example = acquire-IsPool pool only_30001 pool-IsPool refl

abbrev up_left : Ptz
up_left = record {
  zoom_out = false;
  zoom_in = true;
  up = true;
  down = false;
  left = true;
  right = false;
  speed = 20;
}

ptz_bytes-frame_example : ptz_bytes up_left ≡ frame 26 20 20 64
ptz_bytes-frame_example = ptz_bytes-frame up_left

up_left-IsReadable : IsReadable up_left
up_left-IsReadable = record {
  byte = omega arith;
  zoom_only = λ e. absurd (ground arith);
  still = λ e f. absurd (ground arith);
}

receive-ptz_pack_example : receive (ptz_pack up_left) ≡ some up_left
receive-ptz_pack_example = receive-ptz_pack up_left up_left-IsReadable

abbrev focus : Fi
focus = record { iris_in = false; iris_out = true; focus_near = true; focus_far = false; speed = 9 }

fi_bytes-frame_example : fi_bytes focus ≡ frame 70 9 9 0
fi_bytes-frame_example = fi_bytes-frame focus

abbrev stay : Cruise
stay = record { cmd = 0x87; group_num = 3; value = 1000 }

cruise_bytes-frame_example : cruise_bytes stay ≡ frame 0x87 3 232 3
cruise_bytes-frame_example = cruise_bytes-frame stay (omega arith)

-- The end of a packet, a whole one and the beginning of another.
abbrev received : List ℕ
received = 9 ∷ 0 ∷ 0 ∷ 1 ∷ 0xBA ∷ 5 ∷ 0 ∷ 0 ∷ 1 ∷ 0xBA ∷ 6 ∷ []

split_ps_packets-join_example : join (split_ps_packets received) ≡ received
split_ps_packets-join_example = split_ps_packets-join received

split_ps_packets-tail_example : All IsPackStart (tail (split_ps_packets received))
split_ps_packets-tail_example = split_ps_packets-tail received

demuxer-keeps_example : kept (demuxer (0 ∷ 0 ∷ []) received) ≡ (0 ∷ 0 ∷ []) ++ received
demuxer-keeps_example = demuxer-keeps (0 ∷ 0 ∷ []) received
