-- ===== src/Gb28181/Ptz/Hex.antt =====
-- gb28181/ptz.go: the hexadecimal text of a command, read back.
use lalmax.Base.{
  ℕ, ◌+◌, ◌-◌, ◌*◌, ◌/◌, ◌%◌, ◌<◌, ◌≡◌, refl, sym, inl, inr, arith, Bool, true, false, List, [],
  ◌∷◌, Option, none, some, All, IsByte, ltb, leb, ◌==◌, ◌||◌, ◌&&◌, if◌then◌else◌, Bool-cases,
}
use lalmax.Gb28181.Ptz.Commands.{frame, bit, either, ptz_sum, ptz_bytes-frame}
use lalmax.Gb28181.Ptz.{Ptz, ptz_pack, ptz_bytes, hex_digit, hex_encode}

-- The value of a digit 0-9 or a-f.
unfoldable pub digit_value : ℕ → Option ℕ
digit_value c =
    if leb b'0' c && leb c b'9'
    then some (c - b'0')
    else if leb b'a' c && leb c b'f'
    then some (c - b'a' + 10)
    else none

abbrev pair_value : Option ℕ → Option ℕ → Option ℕ
pair_value (some h) (some l) = some (h * 16 + l)
pair_value _ _ = none

abbrev cons_value : Option ℕ → Option (List ℕ) → Option (List ℕ)
cons_value (some b) (some rest) = some (b ∷ rest)
cons_value _ _ = none

-- `hex.DecodeString`, for lower-case text.
unfoldable pub hex_decode : List ℕ → Option (List ℕ)
unfolding digit_value
hex_decode [] = some []
hex_decode (_ ∷ []) = none
hex_decode (h ∷ l ∷ rest) =
    cons_value (pair_value (digit_value h) (digit_value l)) (hex_decode rest)

digit_value-hex_digit : (d : ℕ) → d < 16 → digit_value (hex_digit d) ≡ some d
unfolding digit_value hex_digit
digit_value-hex_digit d h = elim (Bool-cases (ltb d 10)) [
  | inl low ↦ rw low (ground arith)
  | inr high ↦ rw high (ground arith)
]

pub hex_decode-hex_encode : (xs : List ℕ) → All IsByte xs → hex_decode (hex_encode xs) ≡ some xs
unfolding hex_decode hex_encode
hex_decode-hex_encode [] h = refl
hex_decode-hex_encode (b ∷ rest) h =
    let whole : b / 16 * 16 + b % 16 ≡ b = omega arith in
    rw (
      digit_value-hex_digit (b / 16) (omega (arith, h.0)),
      digit_value-hex_digit (b % 16) (omega arith),
      hex_decode-hex_encode rest h.1,
      whole,
    )

either-lt : (a b : Bool) (v : ℕ) → v < 256 → either a b v < 256
either-lt true b v h = h
either-lt false true v h = h
either-lt false false v h = omega arith

bit-lt : (b : Bool) → bit b < 2
bit-lt true = omega arith
bit-lt false = omega arith

frame-IsByte :
    (a b c d : ℕ) → IsByte a → IsByte b → IsByte c → IsByte d → All IsByte (frame a b c d)
unfolding frame
frame-IsByte a b c d ha hb hc hd =
    (omega arith, (omega arith, (omega arith, (ha, (hb, (hc, (hd, (omega arith, tt))))))))

ptz_bytes-IsByte : (p : Ptz) → p.speed < 256 → All IsByte (ptz_bytes p)
ptz_bytes-IsByte p h = rw (ptz_bytes-frame p) (
    frame-IsByte _ _ _ _
      (omega (
        arith,
        bit-lt p.zoom_out,
        bit-lt p.zoom_in,
        bit-lt p.up,
        bit-lt p.down,
        bit-lt p.left,
        bit-lt p.right,
      ))
      (either-lt p.right p.left p.speed h) (either-lt p.down p.up p.speed h)
      (either-lt p.zoom_in p.zoom_out (p.speed * 16 % 256) (omega arith)))

-- What a camera reads in the eight bytes of a command: the fixed bytes and the sum have to be right,
-- each bit is a flag, and the speed is that of the first axis that moves.
abbrev has_bit : ℕ → ℕ → Bool
has_bit value byte = byte / value % 2 == 1

unfoldable pub read_ptz : List ℕ → Option Ptz
read_ptz (a ∷ b ∷ c ∷ cmd ∷ pan ∷ tilt ∷ zoom ∷ sum ∷ []) =
    if a == 0xA5 && b == 0x0F && c == 1 && sum == (a + b + c + cmd + pan + tilt + zoom) % 256
    then some (record {
      zoom_out = has_bit 32 cmd;
      zoom_in = has_bit 16 cmd;
      up = has_bit 8 cmd;
      down = has_bit 4 cmd;
      left = has_bit 2 cmd;
      right = has_bit 1 cmd;
      speed =
          if has_bit 1 cmd || has_bit 2 cmd
          then pan
          else if has_bit 4 cmd || has_bit 8 cmd
          then tilt
          else zoom / 16;
    })
    else none
read_ptz _ = none

abbrev read_text : Option (List ℕ) → Option Ptz
read_text none = none
read_text (some bytes) = read_ptz bytes

-- The command as a camera has it from the text.
unfoldable pub receive : List ℕ → Option Ptz
unfolding hex_decode read_ptz
receive text = read_text (hex_decode text)

-- The speed shows: a byte where an axis moves, four bits where there is zoom alone, and else 0.
pub record IsReadable (p : Ptz) : Type 0 where
  pub byte : p.speed < 256
  pub zoom_only : (p.right || p.left || p.down || p.up) ≡ false → p.speed < 16
  pub still :
      (p.right || p.left || p.down || p.up) ≡ false
      → (p.zoom_in || p.zoom_out) ≡ false
      → p.speed ≡ 0

bit_is_one : (b : Bool) → (bit b == 1) ≡ b
bit_is_one true = refl
bit_is_one false = refl

module _ (zo zi u d l r : Bool) where
  abbrev command : ℕ
  command = ptz_sum zo zi u d l r

  pub has_bit-command :
      (has_bit 32 command ≡ zo)
      × (has_bit 16 command ≡ zi)
      × (has_bit 8 command ≡ u)
      × (has_bit 4 command ≡ d)
      × (has_bit 2 command ≡ l)
      × (has_bit 1 command ≡ r)
  has_bit-command =
      let values : (command / 32 % 2 ≡ bit zo)
          × (command / 16 % 2 ≡ bit zi)
          × (command / 8 % 2 ≡ bit u)
          × (command / 4 % 2 ≡ bit d)
          × (command / 2 % 2 ≡ bit l)
          × (command / 1 % 2 ≡ bit r) =
        omega (arith, bit-lt zo, bit-lt zi, bit-lt u, bit-lt d, bit-lt l, bit-lt r) in
      (
        rw values.0 (bit_is_one zo),
        rw values.1 (bit_is_one zi),
        rw values.2 (bit_is_one u),
        rw values.3 (bit_is_one d),
        rw values.4 (bit_is_one l),
        rw values.5 (bit_is_one r),
      )

abbrev speed_of : Bool → Bool → Bool → Bool → ℕ → ℕ → ℕ → ℕ
speed_of u d l r pan tilt zoom = if r || l then pan else if d || u then tilt else zoom / 16

shown_speed :
    (zo zi u d l r : Bool) (v : ℕ)
    → ((r || l || d || u) ≡ false → v < 16)
    → ((r || l || d || u) ≡ false → (zi || zo) ≡ false → v ≡ 0)
    → speed_of u d l r (either r l v) (either d u v) (either zi zo (v * 16 % 256)) ≡ v
shown_speed zo zi u d l true v small still = refl
shown_speed zo zi u d true false v small still = refl
shown_speed zo zi u true false false v small still = refl
shown_speed zo zi true false false false v small still = refl
shown_speed zo true false false false false v small still = omega (arith, small refl)
shown_speed true false false false false false v small still = omega (arith, small refl)
shown_speed false false false false false false v small still = sym (still refl refl)

read_ptz-frame :
    (cmd pan tilt zoom : ℕ)
    → read_ptz (frame cmd pan tilt zoom)
      ≡ some (record {
        zoom_out = has_bit 32 cmd;
        zoom_in = has_bit 16 cmd;
        up = has_bit 8 cmd;
        down = has_bit 4 cmd;
        left = has_bit 2 cmd;
        right = has_bit 1 cmd;
        speed =
            speed_of (has_bit 8 cmd) (has_bit 4 cmd) (has_bit 2 cmd) (has_bit 1 cmd) pan tilt zoom;
      })
unfolding read_ptz frame
read_ptz-frame cmd pan tilt zoom =
    let n : ℕ = (0xA5 + 0x0F + 1 + cmd + pan + tilt + zoom) % 256 in
    let same : (n == n) ≡ true = ground arith in rw same refl

-- For a speed that the command shows, a camera that decodes the text and reads the bytes has the
-- command again: every flag in its bit, and the speed.
pub receive-ptz_pack : (p : Ptz) → IsReadable p → receive (ptz_pack p) ≡ some p
unfolding receive ptz_pack
receive-ptz_pack p h =
    let (zo, zi, u, d, l, r) = has_bit-command p.zoom_out p.zoom_in p.up p.down p.left p.right in
    let speed =
      shown_speed p.zoom_out p.zoom_in p.up p.down p.left p.right p.speed h.zoom_only h.still in
    rw
      (
        hex_decode-hex_encode (ptz_bytes p) (ptz_bytes-IsByte p h.byte),
        ptz_bytes-frame p,
        read_ptz-frame,
        zo,
        zi,
        u,
        d,
        l,
        r,
        speed,
      )
      refl
