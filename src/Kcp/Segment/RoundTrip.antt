-- ===== src/Kcp/Segment/RoundTrip.antt =====
-- `encode` of kcp/src/kcp.rs against the reads of `input`, `get_sn` and `set_conv`.
use kcp_scream_testspace.Common.{
  ℕ, ◌+◌, ◌≤◌, ◌≡◌, refl, some, List, [], ◌∷◌, ◌++◌, length, length-append, IsU8, IsU16, IsU32,
  arith, put_u16_le, put_u32_le, le16-put, le32-put,
}
use mathlib.Core.Option
use kcp_scream_testspace.Kcp.Segment.{
  KcpSegment, Header, encode, encoded_len, get_header, get_conv, set_conv, get_sn, kcp_overhead,
}

-- Every field fits its place on the wire.
pub record IsWire (seg : KcpSegment) : Type 0 where
  pub conv_lt : IsU32 seg.conv
  pub cmd_lt : IsU8 seg.cmd
  pub frg_lt : IsU8 seg.frg
  pub wnd_lt : IsU16 seg.wnd
  pub ts_lt : IsU32 seg.ts
  pub sn_lt : IsU32 seg.sn
  pub una_lt : IsU32 seg.una
  pub len_lt : IsU32 (length seg.payload)

-- The header that stands for a segment.
abbrev pub header_of : KcpSegment → Header
header_of seg = record {
  conv = seg.conv;
  cmd = seg.cmd;
  frg = seg.frg;
  wnd = seg.wnd;
  ts = seg.ts;
  sn = seg.sn;
  una = seg.una;
  len = length seg.payload;
}

-- `encode` only appends.
pub encode-append : (seg : KcpSegment) (buf : List ℕ) → encode seg buf ≡ buf ++ encode seg []
unfolding encode
encode-append seg buf = refl

pub length-encode :
    (seg : KcpSegment) (buf : List ℕ) → length (encode seg buf) ≡ length buf + encoded_len seg
unfolding encode encoded_len put_u32_le put_u16_le
length-encode seg buf = rw (length-append buf) (omega arith)

-- Reading back an encoded segment gives each of its wire fields, and leaves its payload and the
-- bytes behind it, if every field fits its place on the wire.
pub get_header-encode :
    (seg : KcpSegment) (rest : List ℕ)
    → IsWire seg
    → get_header (encode seg [] ++ rest) ≡ some (header_of seg, seg.payload ++ rest)
unfolding encode get_header put_u32_le put_u16_le
get_header-encode seg rest w = ground (
  arith,
  le32-put seg.conv w.conv_lt,
  le16-put seg.wnd w.wnd_lt,
  le32-put seg.ts w.ts_lt,
  le32-put seg.sn w.sn_lt,
  le32-put seg.una w.una_lt,
  le32-put (length seg.payload) w.len_lt,
)

-- The raw accessors of the listener see the same fields.
pub get_conv-encode :
    (seg : KcpSegment) (rest : List ℕ)
    → IsWire seg
    → get_conv (encode seg [] ++ rest) ≡ some seg.conv
unfolding encode get_conv put_u32_le put_u16_le
get_conv-encode seg rest w = ground (arith, le32-put seg.conv w.conv_lt)

pub get_sn-encode :
    (seg : KcpSegment) (rest : List ℕ) → IsWire seg → get_sn (encode seg [] ++ rest) ≡ some seg.sn
unfolding encode get_sn put_u32_le put_u16_le
get_sn-encode seg rest w = ground (arith, le32-put seg.sn w.sn_lt)

-- `set_conv` rewrites `conv` alone: `get_header` then reads the new one, every other field of the
-- packet's header and its rest as before, if the new one is a `u32`.
pub get_header-set_conv :
    (buf : List ℕ) (conv : ℕ) (h : Header) (rest : List ℕ)
    → IsU32 conv
    → get_header buf ≡ some (h, rest)
    → Option.map get_header (set_conv buf conv) ≡ some (some (record h { conv = conv }, rest))
unfolding get_header set_conv put_u32_le
get_header-set_conv
      (c0 ∷ c1 ∷ c2 ∷ c3 ∷ cmd ∷ frg ∷ w0 ∷ w1 ∷ t0 ∷ t1 ∷ t2 ∷ t3 ∷ s0 ∷ s1 ∷ s2 ∷ s3 ∷ u0 ∷ u1
        ∷ u2 ∷ u3 ∷ l0 ∷ l1 ∷ l2 ∷ l3 ∷ tail)
      conv h rest hc e =
    ground (arith, le32-put conv hc)
get_header-set_conv _ conv h rest hc e = cc

pub encoded_len-ge : (seg : KcpSegment) → kcp_overhead ≤ encoded_len seg
unfolding encoded_len
encoded_len-ge seg = omega arith
