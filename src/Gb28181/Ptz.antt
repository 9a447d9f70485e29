-- ===== src/Gb28181/Ptz.antt =====
-- gb28181/ptz.go: the eight bytes of a device control command, and their hexadecimal text. A text is
-- the list of its bytes.
pub mod Commands
pub mod Hex
use lalmax.Base.{
  ℕ, ◌+◌, ◌-◌, ◌*◌, ◌/◌, ◌%◌, ◌^◌, bit_and, bit_or, Bool, List, [], ◌∷◌, length, get_or, set, take,
  replicate, ltb, if◌then◌else◌, u8, shr, shl,
}

abbrev pub ptz_first_byte : ℕ
ptz_first_byte = 0xA5

unfoldable pub get_assemble_code : ℕ
get_assemble_code = (shr ptz_first_byte 4 + bit_and ptz_first_byte 0xF + 0) % 16

-- The sum of a slice, as a uint8.
unfoldable pub sum_u8 : ℕ → List ℕ → ℕ
sum_u8 sum [] = sum
sum_u8 sum (b ∷ rest) = sum_u8 (u8 (sum + b)) rest

-- The last byte becomes the sum of those before it.
unfoldable pub get_verification_code : List ℕ → List ℕ
unfolding sum_u8
get_verification_code ptz = set ptz (length ptz - 1) (sum_u8 0 (take (length ptz - 1) ptz))

-- `hex.EncodeToString`.
unfoldable pub hex_digit : ℕ → ℕ
hex_digit d = if ltb d 10 then b'0' + d else b'a' + d - 10

unfoldable pub hex_encode : List ℕ → List ℕ
unfolding hex_digit
hex_encode [] = []
hex_encode (b ∷ rest) = hex_digit (b / 16) ∷ hex_digit (b % 16) ∷ hex_encode rest

-- `if flag { buf[3] |= bit; buf[at] = v }`.
unfoldable pub when_set : Bool → ℕ → ℕ → ℕ → List ℕ → List ℕ
when_set flag bit at v buf =
    if flag then set (set buf 3 (bit_or (get_or buf 3 0) bit)) at v else buf

-- The first bytes that every command writes.
unfoldable pub start_command : List ℕ
unfolding get_assemble_code
start_command = set (set (set (replicate 8 0) 0 ptz_first_byte) 1 get_assemble_code) 2 1

pub record Ptz : Type 0 where
  pub zoom_out : Bool
  pub zoom_in : Bool
  pub up : Bool
  pub down : Bool
  pub left : Bool
  pub right : Bool
  pub speed : ℕ

unfoldable pub ptz_bytes : Ptz → List ℕ
unfolding start_command when_set get_verification_code
ptz_bytes p =
    let zoomed =
      when_set p.zoom_in (shl 1 4) 6 (u8 (shl p.speed 4))
        (when_set p.zoom_out (shl 1 5) 6 (u8 (shl p.speed 4)) start_command) in
    let tilted = when_set p.down (shl 1 2) 5 p.speed (when_set p.up (shl 1 3) 5 p.speed zoomed) in
    get_verification_code
      (when_set p.right 1 4 p.speed (when_set p.left (shl 1 1) 4 p.speed tilted))

unfoldable pub ptz_pack : Ptz → List ℕ
unfolding ptz_bytes hex_encode
ptz_pack p = hex_encode (ptz_bytes p)

unfoldable pub stop_bytes : List ℕ
unfolding start_command get_verification_code
stop_bytes = get_verification_code (set start_command 3 0)

unfoldable pub ptz_stop : List ℕ
unfolding stop_bytes hex_encode
ptz_stop = hex_encode stop_bytes

pub record Fi : Type 0 where
  pub iris_in : Bool
  pub iris_out : Bool
  pub focus_near : Bool
  pub focus_far : Bool
  pub speed : ℕ

unfoldable pub fi_bytes : Fi → List ℕ
unfolding start_command when_set get_verification_code
fi_bytes f =
    let opened = set start_command 3 (bit_or 0 (shl 1 6)) in
    let iris =
      when_set f.iris_out (shl 1 2) 5 f.speed (when_set f.iris_in (shl 1 3) 5 f.speed opened) in
    get_verification_code
      (when_set f.focus_far 1 4 f.speed (when_set f.focus_near (shl 1 1) 4 f.speed iris))

unfoldable pub fi_pack : Fi → List ℕ
unfolding fi_bytes hex_encode
fi_pack f = hex_encode (fi_bytes f)

pub record Preset : Type 0 where
  pub cmd : ℕ
  pub point : ℕ

unfoldable pub preset_bytes : Preset → List ℕ
unfolding start_command get_verification_code
preset_bytes p = get_verification_code (set (set start_command 3 p.cmd) 5 p.point)

unfoldable pub preset_pack : Preset → List ℕ
unfolding preset_bytes hex_encode
preset_pack p = hex_encode (preset_bytes p)

pub record Cruise : Type 0 where
  pub cmd : ℕ
  pub group_num : ℕ
  pub value : ℕ

unfoldable pub cruise_bytes : Cruise → List ℕ
unfolding start_command get_verification_code
cruise_bytes c = get_verification_code (
    set (set (set (set start_command 3 c.cmd) 4 c.group_num) 5 (u8 (bit_and c.value 0xFF))) 6
      (bit_and (u8 (shr c.value 8)) 0x0F))

unfoldable pub cruise_pack : Cruise → List ℕ
unfolding cruise_bytes hex_encode
cruise_pack c = hex_encode (cruise_bytes c)
