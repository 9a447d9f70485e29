-- ===== src/Mpegps/BitStream/GetLoop.antt =====
-- gb28181/mpegps/bitstream.go: the loop of GetBits over whole bytes.
use lalmax.Base.{
  ℕ, zero, suc, ◌+◌, ◌-◌, ◌*◌, ◌/◌, ◌%◌, ◌^◌, ◌≤◌, ◌<◌, ◌≡◌, ap, sym, ◌∙◌, inl, inr, arith, bit_and,
  bit_or, bit_or_fields, true, false, List, [], ◌∷◌, ◌++◌, length, length-take, take, All, IsByte,
  leb, ◌==◌, ==_iff, Bool-cases, u64, shl, shr,
}
use lalmax.Base.Outcome.{Outcome, ok, panic}
use lalmax.Mpegps.BitStream.{bit_mask, get_loop}
use lalmax.Mpegps.BitList.{
  byte_bits, all_bits, of_bits_from, of_bits, pow_add, of_bits_from-append, of_bits_from_sum,
  of_bits-lt, all_bits-IsBit, of_bits_from-byte, take-drop-append, field_in_byte, IsBit,
}
use native.Mathlib.Nat.{pow-le-pow_right, mul-le-mul_right, mod-eq_of_lt}

pow_le : (a b : ℕ) → a ≤ b → 2 ^ a ≤ 2 ^ b
pow_le a b h = pow-le-pow_right (omega arith) h

-- A value of `k` bits, shifted by `n`, stays below 2 ^ (k + n).
shifted-lt : (ret k n : ℕ) → ret < 2 ^ k → k + n ≤ 64 → ret * 2 ^ n < 2 ^ 64
shifted-lt ret k n h fits = omega (
  arith,
  pow_add k n,
  pow_le (k + n) 64 fits,
  mul-le-mul_right {m = suc ret} {n = 2 ^ k} (2 ^ n) h,
  pow_le 0 n (omega arith),
)

-- `ret<<n | v` for a field v of n bits.
join_bits :
    (n ret k v : ℕ)
    → ret < 2 ^ k
    → k + n ≤ 64
    → v < 2 ^ n
    → bit_or (u64 (shl ret n)) v ≡ ret * 2 ^ n + v
join_bits n ret k v h fits hv =
    let whole : u64 (ret * 2 ^ n) ≡ ret * 2 ^ n = mod-eq_of_lt (shifted-lt ret k n h fits) in
    rw whole (bit_or_fields n ret v hv)

eight_and : (n : ℕ) → 8 ≤ n → n ≡ suc (suc (suc (suc (suc (suc (suc (suc (n - 8))))))))
eight_and n h = omega arith

take_byte :
    (n b : ℕ) (xs : List ℕ) → 8 ≤ n → take n (byte_bits b ++ xs) ≡ byte_bits b ++ take (n - 8) xs
take_byte n b xs h = ap (λ (k : ℕ). take k (byte_bits b ++ xs)) (eight_and n h)

take-IsBit : (n : ℕ) (xs : List ℕ) → All IsBit xs → All IsBit (take n xs)
take-IsBit zero xs h = tt
take-IsBit (suc n) [] h = tt
take-IsBit (suc n) (x ∷ xs) h = (h.0, take-IsBit n xs h.1)

pub byte_bits-IsBit : (b : ℕ) → All IsBit (byte_bits b)
unfolding all_bits
byte_bits-IsBit b = all_bits-IsBit (b ∷ [])

pub small_field : (n : ℕ) (xs : List ℕ) → All IsBit xs → length xs ≡ n → of_bits xs < 2 ^ n
small_field n xs h size = rw (sym size) (of_bits-lt xs h)

-- The last byte of the loop, of which only the first n < 8 bits are read.
last_byte :
    (n b ret k : ℕ) (xs : List ℕ)
    → IsByte b
    → 0 < n
    → n < 8
    → ret < 2 ^ k
    → k + n ≤ 64
    → bit_or (u64 (shl ret n)) (bit_and (shr b (8 - n)) (bit_mask (n - 1)))
      ≡ of_bits_from ret (take n (byte_bits b ++ xs))
last_byte n b ret k xs hb hn lt hret fits =
    let field = take n (byte_bits b) in
    let same : take n (byte_bits b ++ xs) ≡ field =
      take-drop-append n 0 (byte_bits b) xs (omega arith) in
    let size : length field ≡ n = length-take n (byte_bits b) ∙ omega arith in
    let small : of_bits field < 2 ^ n =
      small_field n field (take-IsBit n (byte_bits b) (byte_bits-IsBit b)) size in
    rw (same, field_in_byte b 0 n hb hn (omega arith), of_bits_from_sum ret field, size)
      (join_bits n ret k (of_bits field) hret fits small)

value :
    (ret b n : ℕ) (xs : List ℕ) (v : ℕ)
    → IsByte b
    → 8 ≤ n
    → v ≡ ret * 256 + b
    → of_bits_from v (take (n - 8) xs) ≡ of_bits_from ret (take n (byte_bits b ++ xs))
value ret b n xs v hb big joined = rw (
  take_byte n b xs big,
  of_bits_from-append ret (byte_bits b) (take (n - 8) xs),
  of_bits_from-byte ret b hb,
  joined,
)

same_result :
    {a b c a' b' c' : ℕ}
    → a ≡ a'
    → b ≡ b'
    → c ≡ c'
    → ◌≡◌ {A = Outcome (ℕ × ℕ × ℕ)} (ok (a, b, c)) (ok (a', b', c'))
same_result p q r = cc

pub get_loop_lem :
    (bytes : List ℕ) (n ret k off : ℕ)
    → All IsByte bytes
    → ret < 2 ^ k
    → k + n ≤ 64
    → n ≤ 8 * length bytes
    → get_loop bytes n ret off ≡ ok (of_bits_from ret (take n (all_bits bytes)), off + n / 8, n % 8)
unfolding get_loop all_bits of_bits_from
get_loop_lem [] n ret k off hb hret fits enough =
    let e : n ≡ 0 = omega arith in rw e (ap (λ (o : ℕ). ok (ret, o, 0)) (omega arith))
get_loop_lem (b ∷ rest) n ret k off hb hret fits enough = elim (Bool-cases (n == 0)) [
  | inl z ↦ let e : n ≡ 0 = (==_iff n 0).0 z in rw e (ap (λ (o : ℕ). ok (ret, o, 0)) (omega arith))
  | inr nz ↦ elim (Bool-cases (leb 8 n)) [
    | inl big ↦
        let joined = join_bits 8 ret k b hret (ground arith) hb.0 in
        rw (nz, big)
          (get_loop_lem rest (n - 8) (bit_or (u64 (shl ret 8)) b) (k + 8) (off + 1) hb.1
              (rw joined (
                omega
                  (arith, pow_add k 8, mul-le-mul_right {m = suc ret} {n = 2 ^ k} 256 hret, hb.0)))
              (ground arith) (ground arith)
            ∙ same_result
                (value ret b n (all_bits rest) (bit_or (u64 (shl ret 8)) b) hb.0 (ground arith)
                  joined)
                (ground arith) (ground arith))
    | inr few ↦
        rw (nz, few)
          (same_result
            (last_byte n b ret k (all_bits rest) hb.0 (ground arith) (ground arith) hret fits)
            (ground arith) (ground arith))
  ]
]

pub get_loop_past_end :
    (bytes : List ℕ) (n ret off : ℕ) → 8 * length bytes < n → get_loop bytes n ret off ≡ panic
unfolding get_loop
get_loop_past_end [] n ret off h = ground arith
get_loop_past_end (b ∷ rest) n ret off h =
    let nz : (n == 0) ≡ false = ground arith in
    let big : leb 8 n ≡ true = ground arith in
    rw (nz, big)
      (get_loop_past_end rest (n - 8) (bit_or (u64 (shl ret 8)) b) (off + 1) (omega arith))
