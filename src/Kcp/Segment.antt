-- ===== src/Kcp/Segment.antt =====
-- `KcpSegment` of kcp/src/kcp.rs and its wire format.
pub mod RoundTrip
use kcp_scream_testspace.Common.{
  ℕ, ◌+◌, ◌≡◌, refl, sym, ap, ◌∙◌, append_assoc, Option, none, some, List, [], ◌∷◌, ◌++◌, length,
  u32, ltb, if◌then◌else◌, put_u16_le, put_u32_le, le16, le32, drop,
}

-- KCP_OVERHEAD
abbrev pub kcp_overhead : ℕ
kcp_overhead = 24

-- The field `data` is `payload` here.
pub record KcpSegment : Type 0 where
  pub conv : ℕ
  pub cmd : ℕ
  pub frg : ℕ
  pub wnd : ℕ
  pub ts : ℕ
  pub sn : ℕ
  pub una : ℕ
  pub resendts : ℕ
  pub rto : ℕ
  pub fastack : ℕ
  pub xmit : ℕ
  pub payload : List ℕ

abbrev pub new_with_data : List ℕ → KcpSegment
new_with_data payload = record {
  conv = 0;
  cmd = 0;
  frg = 0;
  wnd = 0;
  ts = 0;
  sn = 0;
  una = 0;
  resendts = 0;
  rto = 0;
  fastack = 0;
  xmit = 0;
  payload = payload;
}

unfoldable pub encoded_len : KcpSegment → ℕ
encoded_len seg = kcp_overhead + length seg.payload

-- Appends the segment to the buffer, which grows as needed.
unfoldable pub encode : KcpSegment → List ℕ → List ℕ
encode seg buf =
    buf
    ++ (put_u32_le seg.conv
        ++ ((seg.cmd ∷ seg.frg ∷ [])
            ++ (put_u16_le seg.wnd
                ++ (put_u32_le seg.ts
                    ++ (put_u32_le seg.sn
                        ++ (put_u32_le seg.una
                            ++ (put_u32_le (u32 (length seg.payload)) ++ seg.payload)))))))

-- The header fields that `input` reads, in order.
pub record Header : Type 0 where
  pub conv : ℕ
  pub cmd : ℕ
  pub frg : ℕ
  pub wnd : ℕ
  pub ts : ℕ
  pub sn : ℕ
  pub una : ℕ
  pub len : ℕ

-- One round of `get_*_le` calls: the header and what remains of the cursor. `none` stands for fewer
-- than KCP_OVERHEAD bytes, which the loop condition of `input` rules out.
unfoldable pub get_header : List ℕ → Option (Header × List ℕ)
get_header
      (c0 ∷ c1 ∷ c2 ∷ c3 ∷ cmd ∷ frg ∷ w0 ∷ w1 ∷ t0 ∷ t1 ∷ t2 ∷ t3 ∷ s0 ∷ s1 ∷ s2 ∷ s3 ∷ u0 ∷ u1
        ∷ u2 ∷ u3 ∷ l0 ∷ l1 ∷ l2 ∷ l3 ∷ rest) =
    some (
      record {
        conv = le32 c0 c1 c2 c3;
        cmd = cmd;
        frg = frg;
        wnd = le16 w0 w1;
        ts = le32 t0 t1 t2 t3;
        sn = le32 s0 s1 s2 s3;
        una = le32 u0 u1 u2 u3;
        len = le32 l0 l1 l2 l3;
      },
      rest,
    )
get_header _ = none

-- `Buf::get_u32_le` on a slice that the caller has found long enough.
abbrev pub get_u32_le : List ℕ → Option ℕ
get_u32_le (a ∷ b ∷ c ∷ d ∷ rest) = some (le32 a b c d)
get_u32_le _ = none

-- Reads `conv` of a raw packet; `none` is the failed assertion on the length.
unfoldable pub get_conv : List ℕ → Option ℕ
get_conv buf = if ltb (length buf) kcp_overhead then none else get_u32_le buf

-- Overwrites `conv` of a raw packet.
unfoldable pub set_conv : List ℕ → ℕ → Option (List ℕ)
set_conv buf conv =
    if ltb (length buf) kcp_overhead then none else some (put_u32_le conv ++ drop 4 buf)

-- Reads `sn` of a raw packet.
unfoldable pub get_sn : List ℕ → Option ℕ
get_sn buf = if ltb (length buf) kcp_overhead then none else get_u32_le (drop 12 buf)

-- The bytes that a run of segments carries.
unfoldable pub payloads : List KcpSegment → List ℕ
payloads [] = []
payloads (seg ∷ segs) = seg.payload ++ payloads segs

pub payloads-append : (xs ys : List KcpSegment) → payloads (xs ++ ys) ≡ payloads xs ++ payloads ys
unfolding payloads
payloads-append [] ys = refl
payloads-append (x ∷ xs) ys =
    ap (◌++◌ x.payload) (payloads-append xs ys)
    ∙ sym (append_assoc x.payload (payloads xs) (payloads ys))
