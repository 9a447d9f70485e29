-- ===== src/Mpegps/BitStreamWriter/Put.antt =====
-- gb28181/mpegps/bitstream.go: PutUint64 puts the lowest n bits of a number behind those written.
use lalmax.Base.{
  All, IsByte, ℕ, zero, suc, ◌+◌, ◌-◌, ◌*◌, ◌^◌, ◌≤◌, ◌<◌, ◌≡◌, refl, sym, inl, inr, arith, List,
  [], ◌++◌, leb, Bool-cases, if◌then◌else◌,
}
use lalmax.Base.Outcome.{Outcome, ok}
use lalmax.Mpegps.BitStreamWriter.{
  BitStreamWriter, new_bit_stream_writer, put_in_byte, put_across, put_uint64,
}
use lalmax.Mpegps.BitStreamWriter.Parts.{rest, IsWriter, expand_space-IsWriter}
use lalmax.Mpegps.BitStreamWriter.InByte.{writer}
use lalmax.Mpegps.BitStreamWriter.Advance.{Wrote, put_so_far, put_in_byte-Wrote, rest-zeros}
use lalmax.Mpegps.BitStreamWriter.Across.{put_across-Wrote}
use lalmax.Mpegps.BitList.{all_bits}
use lalmax.Mpegps.BitList.BitsOf.{bits_of}

-- A writer into which the bits `out` have been put.
pub record HasBits (out : List ℕ) (w : BitStreamWriter) : Type 0 where
  pub pre : List ℕ
  pub o : ℕ
  pub c : ℕ
  pub room : ℕ
  pub valid : IsWriter pre o c room w
  pub bits_put : put_so_far pre o c ≡ out

-- The call returns, with the bits `out` in the writer.
pub record Puts (out : List ℕ) (r : Outcome (Unit {0} × BitStreamWriter)) : Type 0 where
  pub after : BitStreamWriter
  pub runs : r ≡ ok (tt, after)
  pub holds : HasBits out after

Wrote-Puts :
    (out : List ℕ) (x y : ℕ) (r : Outcome (Unit {0} × BitStreamWriter))
    → Wrote out x y r
    → Puts out r
Wrote-Puts out x y r t = record {
  after = writer t.pre (rest t.o t.c t.room) t.o x y;
  runs = t.runs;
  holds = record {
    pre = t.pre;
    o = t.o;
    c = t.c;
    room = t.room;
    bits_put = t.bits_put;
    valid = record {
      bytes = refl;
      byte_at = refl;
      bit_at = refl;
      begun = t.begun;
      small = t.small;
      aligned = t.aligned;
      whole = t.whole;
    };
  };
}

as_writer :
    (pre : List ℕ) (o c room : ℕ) (w : BitStreamWriter)
    → IsWriter pre o c room w
    → w ≡ writer pre (rest o c room) o w.bitsmark w.bytemark
as_writer pre o c room w v = rw (sym v.bytes, sym v.byte_at, sym v.bit_at)

branch : (v n : ℕ) (w : BitStreamWriter) → Outcome (Unit {0} × BitStreamWriter)
branch v n w = if leb n (8 - w.bitsoffset) then put_in_byte v n w else put_across v n w

branch-Wrote :
    (v n : ℕ) (pre : List ℕ) (o c room x y : ℕ)
    → All IsByte pre
    → o < 8
    → c < 2 ^ o
    → 0 < n
    → o + n ≤ 8 * room
    → Wrote (put_so_far pre o c ++ bits_of n v) x y (branch v n (writer pre (rest o c room) o x y))
unfolding branch rest
branch-Wrote v n pre o c zero x y hp ho hc hn fits = absurd (omega arith)
branch-Wrote v n pre o c (suc m) x y hp ho hc hn fits = elim (Bool-cases (leb n (8 - o))) [
  | inl short ↦ rw short (put_in_byte-Wrote pre o c m x y v n hp ho hc hn (ground arith))
  | inr long ↦ rw long (put_across-Wrote pre o c m x y v n hp ho hc (ground arith) fits)
]

put_uint64-Puts :
    (v n : ℕ) (pre : List ℕ) (o c room : ℕ) (w : BitStreamWriter)
    → IsWriter pre o c room w
    → 0 < n
    → Puts (put_so_far pre o c ++ bits_of n v) (put_uint64 v n w)
unfolding put_uint64 branch
put_uint64-Puts v n pre o c room w valid hn =
    let e = expand_space-IsWriter n pre o c room w valid in
    let put =
      branch-Wrote v n pre o c e.room e.after.bitsmark e.after.bytemark e.valid.whole e.valid.begun
        e.valid.small hn e.fits in
    rw e.runs (rw (as_writer pre o c e.room e.after e.valid) (Wrote-Puts _ _ _ _ put))

-- For n above 0, PutUint64(v, n) returns, and behind the bits that were in the writer stand the n
-- lowest bits of v, most significant first.
pub put_uint64-appends :
    (v n : ℕ) (out : List ℕ) (w : BitStreamWriter)
    → HasBits out w
    → 0 < n
    → Puts (out ++ bits_of n v) (put_uint64 v n w)
put_uint64-appends v n out w h hn =
    rw (sym h.bits_put) (put_uint64-Puts v n h.pre h.o h.c h.room w h.valid hn)

pub new-HasBits : (n : ℕ) → HasBits [] (new_bit_stream_writer n)
unfolding new_bit_stream_writer all_bits bits_of
new-HasBits n = record {
  pre = [];
  o = 0;
  c = 0;
  room = n;
  valid = record {
    bytes = sym (rest-zeros n);
    byte_at = refl;
    bit_at = refl;
    begun = omega arith;
    small = omega arith;
    aligned = λ e. refl;
    whole = tt;
  };
  bits_put = refl;
}
