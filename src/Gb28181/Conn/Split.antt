-- ===== src/Gb28181/Conn/Split.antt =====
-- gb28181/mediaserver/conn.go: the packets that splitPsPackets cuts, and what Demuxer keeps.
use lalmax.Base.{
  append_assoc, append_nil, ℕ, ◌≡◌, refl, ap, sym, ◌∙◌, inl, inr, arith, true, false, List, [], ◌∷◌,
  ◌++◌, All, length, leb, ltb, Bool-cases,
}
use lalmax.Gb28181.Conn.{
  is_pack_start, split_loop, split_ps_packets, hand_over, is_invalid_ps, demuxer, DemuxerStep,
}

-- The packets one behind the other.
unfoldable pub join : List (List ℕ) → List ℕ
join [] = []
join (p ∷ ps) = p ++ join ps

abbrev pub IsPackStart : List ℕ → Type 0
IsPackStart p = is_pack_start p ≡ true

split_loop-join : (current rest : List ℕ) → join (split_loop current rest) ≡ current ++ rest
unfolding split_loop join
split_loop-join current [] = refl
split_loop-join current (b ∷ rest) = elim (Bool-cases (is_pack_start (b ∷ rest))) [
  | inl cut ↦ rw cut (ap (◌++◌ current) (split_loop-join (b ∷ []) rest))
  | inr grown ↦
      rw grown (split_loop-join (current ++ (b ∷ [])) rest ∙ append_assoc current (b ∷ []) rest)
]

-- The packets, one behind the other, are the bytes that were cut.
pub split_ps_packets-join : (bytes : List ℕ) → join (split_ps_packets bytes) ≡ bytes
unfolding split_ps_packets join
split_ps_packets-join [] = refl
split_ps_packets-join (b ∷ rest) = split_loop-join (b ∷ []) rest

-- A slice that begins with a start code, cut where another begins, still begins with one.
before_cut :
    (x : ℕ) (current rest : List ℕ)
    → is_pack_start ((x ∷ current) ++ rest) ≡ true
    → is_pack_start rest ≡ true
    → is_pack_start (x ∷ current) ≡ true
unfolding is_pack_start
before_cut x (a ∷ b ∷ c ∷ current) rest h k = h
before_cut x (a ∷ b ∷ []) (d ∷ e ∷ f ∷ g ∷ rest) h k = absurd (ground arith)
before_cut x (a ∷ []) (d ∷ e ∷ f ∷ g ∷ rest) h k = absurd (ground arith)
before_cut x [] (d ∷ e ∷ f ∷ g ∷ rest) h k = absurd (ground arith)
before_cut x current [] h k = absurd (ground arith)
before_cut x current (_ ∷ []) h k = absurd (ground arith)
before_cut x current (_ ∷ _ ∷ []) h k = absurd (ground arith)
before_cut x current (_ ∷ _ ∷ _ ∷ []) h k = absurd (ground arith)

split_loop-start :
    (x : ℕ) (current rest : List ℕ)
    → IsPackStart ((x ∷ current) ++ rest)
    → All IsPackStart (split_loop (x ∷ current) rest)
unfolding split_loop
split_loop-start x current [] h = (rw (sym (append_nil current)) h, tt)
split_loop-start x current (b ∷ rest) h = elim (Bool-cases (is_pack_start (b ∷ rest))) [
  | inl cut ↦ rw cut (before_cut x current (b ∷ rest) h cut, split_loop-start b [] rest cut)
  | inr grown ↦
      rw grown
        (split_loop-start x (current ++ (b ∷ [])) rest (rw (append_assoc current (b ∷ []) rest) h))
]

abbrev pub tail : List (List ℕ) → List (List ℕ)
tail [] = []
tail (p ∷ ps) = ps

split_loop-tail : (current rest : List ℕ) → All IsPackStart (tail (split_loop current rest))
unfolding split_loop
split_loop-tail current [] = tt
split_loop-tail current (b ∷ rest) = elim (Bool-cases (is_pack_start (b ∷ rest))) [
  | inl cut ↦ rw cut (split_loop-start b [] rest cut)
  | inr grown ↦ rw grown (split_loop-tail (current ++ (b ∷ [])) rest)
]

-- Every packet but the first begins with the start code of a pack header.
pub split_ps_packets-tail : (bytes : List ℕ) → All IsPackStart (tail (split_ps_packets bytes))
unfolding split_ps_packets
split_ps_packets-tail [] = tt
split_ps_packets-tail (b ∷ rest) = split_loop-tail (b ∷ []) rest

join-append : (ps qs : List (List ℕ)) → join (ps ++ qs) ≡ join ps ++ join qs
unfolding join
join-append [] qs = refl
join-append (p ∷ ps) qs = ap (◌++◌ p) (join-append ps qs) ∙ sym (append_assoc p (join ps) (join qs))

abbrev pub kept : DemuxerStep → List ℕ
kept r = join r.inputs ++ r.buffer

hand_over-kept :
    (p : List ℕ) (ps : List (List ℕ)) (r : DemuxerStep)
    → kept (hand_over (p ∷ ps) r) ≡ join r.inputs ++ join (p ∷ ps)
unfolding hand_over join
hand_over-kept p [] r = ap (◌++◌ (join r.inputs)) (sym (append_nil p))
hand_over-kept p (q ∷ ps) r =
    hand_over-kept q ps (record r { inputs = r.inputs ++ (p ∷ []) })
    ∙ ap (λ t. t ++ join (q ∷ ps)) (join-append r.inputs (p ∷ []))
    ∙ append_assoc (join r.inputs) (p ++ []) (join (q ∷ ps))
    ∙ ap (λ t. join r.inputs ++ (t ++ join (q ∷ ps))) (append_nil p)

hand_over-whole :
    (ps : List (List ℕ)) (r : DemuxerStep)
    → leb (length ps) 1 ≡ false
    → kept (hand_over ps r) ≡ join r.inputs ++ join ps
hand_over-whole [] r h = absurd (ground arith)
hand_over-whole (p ∷ ps) r h = hand_over-kept p ps r

-- In every case, what is handed to the demuxer and then what is kept in the buffer are the bytes that
-- were in the buffer and then the new ones.
pub demuxer-keeps : (buffer bytes : List ℕ) → kept (demuxer buffer bytes) ≡ buffer ++ bytes
unfolding demuxer join
demuxer-keeps buffer bytes =
    let buf = buffer ++ bytes in
    elim (Bool-cases (ltb (length buf) 4)) [
      | inl few ↦ rw few
      | inr enough ↦ elim (Bool-cases (is_invalid_ps buf)) [
        | inl invalid ↦ rw (enough, invalid)
        | inr valid ↦ elim (Bool-cases (leb (length (split_ps_packets buf)) 1)) [
          | inl one ↦ rw (enough, valid, one)
          | inr more ↦
              rw (enough, valid, more)
                (hand_over-whole (split_ps_packets buf)
                    (record { buffer = buf; inputs = []; invalid = false }) more
                  ∙ split_ps_packets-join buf)
        ]
      ]
    ]
