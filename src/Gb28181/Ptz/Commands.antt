-- ===== src/Gb28181/Ptz/Commands.antt =====
-- gb28181/ptz.go: what a command's bytes hold, for each kind of command.
use lalmax.Base.{
  ℕ, ◌+◌, ◌*◌, ◌/◌, ◌%◌, ◌^◌, ◌<◌, ◌≡◌, refl, ap, arith, bit_and, bit_or, Bool, true, false, List,
  [], ◌∷◌, bit_and_mask, ◌==◌, ==_iff, ◌&&◌, if◌then◌else◌,
}
use lalmax.Gb28181.Ptz.{
  Ptz, Fi, Preset, Cruise, get_verification_code, when_set, start_command, get_assemble_code,
  ptz_bytes, fi_bytes, preset_bytes, cruise_bytes,
}

abbrev pub bit : Bool → ℕ
bit true = 1
bit false = 0

abbrev pub either : Bool → Bool → ℕ → ℕ
either a b v = if a then v else if b then v else 0

-- A whole command: the two fixed bytes, the address 1, the four bytes given, and the sum of these
-- seven, modulo 256.
unfoldable pub frame : ℕ → ℕ → ℕ → ℕ → List ℕ
frame a b c d = 0xA5 ∷ 0x0F ∷ 1 ∷ a ∷ b ∷ c ∷ d ∷ (0xA5 + 0x0F + 1 + a + b + c + d) % 256 ∷ []

verified :
    (a b c d last : ℕ)
    → get_verification_code (0xA5 ∷ 0x0F ∷ 1 ∷ a ∷ b ∷ c ∷ d ∷ last ∷ []) ≡ frame a b c d
unfolding get_verification_code frame
verified a b c d last = ap (λ (s : ℕ). 0xA5 ∷ 0x0F ∷ 1 ∷ a ∷ b ∷ c ∷ d ∷ s ∷ []) (omega arith)

abbrev or_if : Bool → ℕ → ℕ → ℕ
or_if flag mask x = if flag then bit_or x mask else x

module _ (a b c d e f g h mask v : ℕ) where
  when_set-at_4 :
      (flag : Bool)
      → when_set flag mask 4 v (a ∷ b ∷ c ∷ d ∷ e ∷ f ∷ g ∷ h ∷ [])
        ≡ a ∷ b ∷ c ∷ or_if flag mask d ∷ (if flag then v else e) ∷ f ∷ g ∷ h ∷ []
  unfolding when_set
  when_set-at_4 true = refl
  when_set-at_4 false = refl

  when_set-at_5 :
      (flag : Bool)
      → when_set flag mask 5 v (a ∷ b ∷ c ∷ d ∷ e ∷ f ∷ g ∷ h ∷ [])
        ≡ a ∷ b ∷ c ∷ or_if flag mask d ∷ e ∷ (if flag then v else f) ∷ g ∷ h ∷ []
  unfolding when_set
  when_set-at_5 true = refl
  when_set-at_5 false = refl

  when_set-at_6 :
      (flag : Bool)
      → when_set flag mask 6 v (a ∷ b ∷ c ∷ d ∷ e ∷ f ∷ g ∷ h ∷ [])
        ≡ a ∷ b ∷ c ∷ or_if flag mask d ∷ e ∷ f ∷ (if flag then v else g) ∷ h ∷ []
  unfolding when_set
  when_set-at_6 true = refl
  when_set-at_6 false = refl

-- Both values of a flag, checked by evaluation.
abbrev both : (Bool → Bool) → Bool
both p = p true && p false

both_sound : (p : Bool → Bool) → both p ≡ true → (b : Bool) → p b ≡ true
both_sound p h true = ground arith
both_sound p h false = ground arith

abbrev ptz_mask : Bool → Bool → Bool → Bool → Bool → Bool → ℕ
ptz_mask zo zi u d l r = or_if r 1 (or_if l 2 (or_if d 4 (or_if u 8 (or_if zi 16 (or_if zo 32 0)))))

abbrev pub ptz_sum : Bool → Bool → Bool → Bool → Bool → Bool → ℕ
ptz_sum zo zi u d l r = 32 * bit zo + 16 * bit zi + 8 * bit u + 4 * bit d + 2 * bit l + bit r

ptz_mask-sum : (zo zi u d l r : Bool) → ptz_mask zo zi u d l r ≡ ptz_sum zo zi u d l r
ptz_mask-sum zo zi u d l r = (==_iff _ _).0 (
    both_sound (λ r. ptz_mask zo zi u d l r == ptz_sum zo zi u d l r)
      (both_sound (λ l. both λ r. ptz_mask zo zi u d l r == ptz_sum zo zi u d l r)
        (both_sound (λ d. both λ l. both λ r. ptz_mask zo zi u d l r == ptz_sum zo zi u d l r)
          (both_sound
            (λ u. both λ d. both λ l. both λ r. ptz_mask zo zi u d l r == ptz_sum zo zi u d l r)
            (both_sound
              (λ zi.
                both λ u.
                  both λ d. both λ l. both λ r. ptz_mask zo zi u d l r == ptz_sum zo zi u d l r)
              (both_sound
                (λ zo. both λ zi. both λ u.
                  both λ d. both λ l. both λ r. ptz_mask zo zi u d l r == ptz_sum zo zi u d l r)
                refl zo)
              zi)
            u)
          d)
        l)
      r)

-- A pan, tilt and zoom command has a bit for each direction, and its speed in the bytes of the axes
-- that move; the zoom speed is four bits.
pub ptz_bytes-frame :
    (p : Ptz)
    → ptz_bytes p
      ≡ frame
          (ptz_sum p.zoom_out p.zoom_in p.up p.down p.left p.right)
          (either p.right p.left p.speed)
          (either p.down p.up p.speed)
          (either p.zoom_in p.zoom_out (p.speed * 16 % 256))
unfolding ptz_bytes start_command get_assemble_code
ptz_bytes-frame p = rw (
  when_set-at_6 0xA5 0x0F 1 0 0 0 0 0 32 (p.speed * 16 % 256) p.zoom_out,
  when_set-at_6 _ _ _ _ _ _ _ _ 16 (p.speed * 16 % 256) p.zoom_in,
  when_set-at_5 _ _ _ _ _ _ _ _ 8 p.speed p.up,
  when_set-at_5 _ _ _ _ _ _ _ _ 4 p.speed p.down,
  when_set-at_4 _ _ _ _ _ _ _ _ 2 p.speed p.left,
  when_set-at_4 _ _ _ _ _ _ _ _ 1 p.speed p.right,
  verified,
  ptz_mask-sum p.zoom_out p.zoom_in p.up p.down p.left p.right,
)

abbrev fi_mask : Bool → Bool → Bool → Bool → ℕ
fi_mask ii io fn ff = or_if ff 1 (or_if fn 2 (or_if io 4 (or_if ii 8 64)))

abbrev fi_sum : Bool → Bool → Bool → Bool → ℕ
fi_sum ii io fn ff = 64 + 8 * bit ii + 4 * bit io + 2 * bit fn + bit ff

fi_mask-sum : (ii io fn ff : Bool) → fi_mask ii io fn ff ≡ fi_sum ii io fn ff
fi_mask-sum ii io fn ff = (==_iff _ _).0 (
    both_sound (λ ff. fi_mask ii io fn ff == fi_sum ii io fn ff)
      (both_sound (λ fn. both λ ff. fi_mask ii io fn ff == fi_sum ii io fn ff)
        (both_sound (λ io. both λ fn. both λ ff. fi_mask ii io fn ff == fi_sum ii io fn ff)
          (both_sound
            (λ ii. both λ io. both λ fn. both λ ff. fi_mask ii io fn ff == fi_sum ii io fn ff) refl
            ii)
          io)
        fn)
      ff)

-- An iris and focus command has bit 6 set and a bit for each flag, and its speed in the bytes of the
-- lens parts that move.
pub fi_bytes-frame :
    (f : Fi)
    → fi_bytes f
      ≡ frame
          (fi_sum f.iris_in f.iris_out f.focus_near f.focus_far)
          (either f.focus_far f.focus_near f.speed)
          (either f.iris_out f.iris_in f.speed)
          0
unfolding fi_bytes start_command get_assemble_code
fi_bytes-frame f = rw (
  when_set-at_5 0xA5 0x0F 1 64 0 0 0 0 8 f.speed f.iris_in,
  when_set-at_5 _ _ _ _ _ _ _ _ 4 f.speed f.iris_out,
  when_set-at_4 _ _ _ _ _ _ _ _ 2 f.speed f.focus_near,
  when_set-at_4 _ _ _ _ _ _ _ _ 1 f.speed f.focus_far,
  verified,
  fi_mask-sum f.iris_in f.iris_out f.focus_near f.focus_far,
)

pub preset_bytes-frame : (p : Preset) → preset_bytes p ≡ frame p.cmd 0 p.point 0
unfolding preset_bytes start_command get_assemble_code
preset_bytes-frame p = verified p.cmd 0 p.point 0 0

-- The masks of Cruise on a uint16.
low_byte : (v : ℕ) → v < 2 ^ 16 → (bit_and v 0xFF) % 256 ≡ v % 256
low_byte v h = omega (arith, bit_and_mask 8 v)

low_nibble : (b : ℕ) → bit_and b 0x0F ≡ b % 16
low_nibble b = bit_and_mask 4 b

nibble_of_byte : (v : ℕ) → v / 256 % 256 % 16 ≡ v / 256 % 16
nibble_of_byte v = omega arith

-- For a value below 2 ^ 16, a cruise command carries its number and group, the low eight bits of the
-- value, and the next four in the low half of the byte behind them.
pub cruise_bytes-frame :
    (c : Cruise)
    → c.value < 2 ^ 16
    → cruise_bytes c ≡ frame c.cmd c.group_num (c.value % 256) (c.value / 256 % 16)
unfolding cruise_bytes start_command get_assemble_code
cruise_bytes-frame c h = rw (
  verified c.cmd c.group_num ((bit_and c.value 0xFF) % 256) (bit_and (c.value / 256 % 256) 0x0F) 0,
  low_byte c.value h,
  low_nibble (c.value / 256 % 256),
  nibble_of_byte c.value,
)
