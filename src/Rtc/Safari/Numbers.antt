-- ===== src/Rtc/Safari/Numbers.antt =====
-- rtc/packer.go: the numbers and marks of a frame's packets.
use lalmax.Base.{
  ℕ, zero, suc, ◌+◌, ◌^◌, ◌%◌, ◌<◌, ◌≡◌, ◌∙◌, refl, ap, arith, List, [], ◌∷◌, Option, none, some,
  length, get_elem?, ◌==◌, u16,
}
use lalmax.Rtc.Safari.{RtpPacket, number_packets}
use mathlib.Core.Option

-- The packet of the payload at place `i` of `n`.
abbrev pub numbered : ℕ → ℕ → ℕ → ℕ → List ℕ → RtpPacket
numbered timestamp seq_id n i p = record {
  timestamp = timestamp;
  marker = suc i == n;
  sequence_number = (seq_id + i) % 2 ^ 16;
  payload = p;
}

suc-eq : (a b : ℕ) → (suc a == suc b) ≡ (a == b)
suc-eq a b = ground arith

one_further : (a b : ℕ) → (u16 (a + 1) + b) % 2 ^ 16 ≡ (a + suc b) % 2 ^ 16
one_further a b = omega arith

-- A place further from a number further.
numbered-suc :
    (timestamp seq_id n i : ℕ) (p : List ℕ)
    → numbered timestamp (u16 (seq_id + 1)) n i p ≡ numbered timestamp seq_id (suc n) (suc i) p
numbered-suc timestamp seq_id n i p = rw (suc-eq (suc i) n, one_further seq_id i) refl

numbered-zero :
    (timestamp seq_id n : ℕ) (p : List ℕ)
    → seq_id < 2 ^ 16
    → record (numbered timestamp seq_id (suc n) 0 p) { marker = n == 0; sequence_number = seq_id }
      ≡ numbered timestamp seq_id (suc n) 0 p
numbered-zero timestamp seq_id n p h =
    let same : (seq_id + 0) % 2 ^ 16 ≡ seq_id = omega arith in
    let last : (1 == suc n) ≡ (n == 0) = ground arith in rw (same, last) refl

map_ext :
    {A B : Type 0} {f g : A → B}
    → ((a : A) → f a ≡ g a)
    → (o : Option A) → Option.map f o ≡ Option.map g o
map_ext h none = refl
map_ext h (some a) = ap some (h a)

number_packets-get_elem? :
    (timestamp seq_id : ℕ) (ps : List (List ℕ)) (i : ℕ)
    → seq_id < 2 ^ 16
    → get_elem? (number_packets timestamp seq_id ps).0 i
      ≡ Option.map (numbered timestamp seq_id (length ps) i) (get_elem? ps i)
unfolding number_packets
number_packets-get_elem? timestamp seq_id [] i h = refl
number_packets-get_elem? timestamp seq_id (p ∷ rest) zero h =
    ap some (numbered-zero timestamp seq_id (length rest) p h)
number_packets-get_elem? timestamp seq_id (p ∷ rest) (suc i) h =
    number_packets-get_elem? timestamp (u16 (seq_id + 1)) rest i (omega arith)
    ∙ map_ext (numbered-suc timestamp seq_id (length rest) i) (get_elem? rest i)

number_packets-seq_id :
    (timestamp seq_id : ℕ) (ps : List (List ℕ))
    → seq_id < 2 ^ 16
    → (number_packets timestamp seq_id ps).1 ≡ (seq_id + length ps) % 2 ^ 16
unfolding number_packets
number_packets-seq_id timestamp seq_id [] h = omega arith
number_packets-seq_id timestamp seq_id (p ∷ rest) h =
    number_packets-seq_id timestamp (u16 (seq_id + 1)) rest (omega arith) ∙ omega arith

-- From a sequence number of 16 bits, the packet at each place has the payload there, the number so
-- many further on modulo 2 ^ 16, and the mark if it is the last, or there is neither; the
-- number after them all is the next one.
pub number_packets_lem :
    (timestamp seq_id : ℕ) (ps : List (List ℕ)) (i : ℕ)
    → seq_id < 2 ^ 16
    → (get_elem? (number_packets timestamp seq_id ps).0 i
        ≡ Option.map (numbered timestamp seq_id (length ps) i) (get_elem? ps i))
      × ((number_packets timestamp seq_id ps).1 ≡ (seq_id + length ps) % 2 ^ 16)
number_packets_lem timestamp seq_id ps i h =
    (number_packets-get_elem? timestamp seq_id ps i h, number_packets-seq_id timestamp seq_id ps h)
