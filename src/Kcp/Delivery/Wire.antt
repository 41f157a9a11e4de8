-- ===== src/Kcp/Delivery/Wire.antt =====
-- What the datagrams of kcp/src/kcp.rs carry: `encode` in the sender, the reads of `input` in the
-- receiver.
use kcp_scream_testspace.Common.{
  ℕ, ◌^◌, ◌<◌, ◌≡◌, refl, sym, ap, ◌∙◌, true, some, List, [], ◌∷◌, ◌++◌, All, All-map, All-append,
  length, take, drop, arith, u16, u32, IsU32, ◌==◌, append-nil, append_assoc, take-length-append,
  drop-length-append, put_u16_le, put_u32_le, le16, le32, ◌≢◌, subst, ◌%◌, ◌/◌,
}
use kcp_scream_testspace.Kcp.Segment.{KcpSegment, Header, encode, get_header}
use kcp_scream_testspace.Kcp.Segment.RoundTrip.{encode-append}
use kcp_scream_testspace.Kcp.State.{kcp_cmd_push}
use kcp_scream_testspace.Kcp.Input.{pushed}
use kcp_scream_testspace.Kcp.Input.Datagram.{datagram}
use kcp_scream_testspace.Kcp.Delivery.History.{get_elem?, get_elem?-lt, get_elem?-append}

-- The segment carries, under its number, what the history has there; only PUSH segments carry.
pub record Sound (history : List (List ℕ)) (seg : KcpSegment) : Type 0 where
  pub len_lt : IsU32 (length seg.payload)
  pub known : (seg.cmd == kcp_cmd_push) ≡ true → get_elem? history seg.sn ≡ some seg.payload

pub Sound-append :
    (history more : List (List ℕ)) (seg : KcpSegment)
    → Sound history seg
    → Sound (history ++ more) seg
Sound-append history more seg s = record {
  len_lt = s.len_lt;
  known = λ e. get_elem?-append history more seg.sn (s.known e);
}

-- The bytes of whole segments, each of them as `S` wants.
pub record Framed (S : KcpSegment → Type 0) (bytes : List ℕ) : Type 0 where
  pub segs : List KcpSegment
  pub bytes_eq : bytes ≡ datagram segs
  pub all_sound : All S segs

abbrev pub Carries : List (List ℕ) → List ℕ → Type 0
Carries history = Framed (Sound history)

pub Carries-append :
    (history more : List (List ℕ)) (bytes : List ℕ)
    → Carries history bytes
    → Carries (history ++ more) bytes
Carries-append history more bytes c = record {
  segs = c.segs;
  bytes_eq = c.bytes_eq;
  all_sound =
      All-map (Sound history) (Sound (history ++ more)) (Sound-append history more) c.segs
        c.all_sound;
}

pub Framed-nil : (S : KcpSegment → Type 0) → Framed S []
unfolding datagram
Framed-nil S = record { segs = []; bytes_eq = refl; all_sound = tt }

datagram-append :
    (xs : List KcpSegment) (seg : KcpSegment)
    → datagram (xs ++ (seg ∷ [])) ≡ datagram xs ++ encode seg []
unfolding datagram
datagram-append [] seg = append-nil (encode seg [])
datagram-append (x ∷ xs) seg =
    ap (◌++◌ (encode x [])) (datagram-append xs seg)
    ∙ sym (append_assoc (encode x []) (datagram xs) (encode seg []))

-- `encode` behind what the buffer has.
pub Framed-encode :
    (S : KcpSegment → Type 0) (seg : KcpSegment) (bytes : List ℕ)
    → S seg
    → Framed S bytes
    → Framed S (encode seg bytes)
Framed-encode S seg bytes s c = record {
  segs = c.segs ++ (seg ∷ []);
  bytes_eq =
      encode-append seg bytes
      ∙ ap (λ b. b ++ encode seg []) c.bytes_eq
      ∙ sym (datagram-append c.segs seg);
  all_sound = All-append S c.segs (seg ∷ []) c.all_sound (s, tt);
}

-- The header that is read back, where a field may be too large for its place.
abbrev read_back : KcpSegment → Header
read_back seg = record {
  conv = u32 seg.conv;
  cmd = seg.cmd;
  frg = seg.frg;
  wnd = u16 seg.wnd;
  ts = u32 seg.ts;
  sn = u32 seg.sn;
  una = u32 seg.una;
  len = u32 (length seg.payload);
}

put32 : (x : ℕ) → le32 (x % 256) (x / 256 % 256) (x / 65536 % 256) (x / 16777216 % 256) ≡ u32 x
put32 x = omega arith

put16 : (x : ℕ) → le16 (x % 256) (x / 256 % 256) ≡ u16 x
put16 x = omega arith

get_header-read_back :
    (seg : KcpSegment) (rest : List ℕ)
    → IsU32 (length seg.payload)
    → get_header (encode seg [] ++ rest) ≡ some (read_back seg, seg.payload ++ rest)
unfolding encode get_header put_u32_le put_u16_le
get_header-read_back seg rest h = ground (
  put32 seg.conv,
  put16 seg.wnd,
  put32 seg.ts,
  put32 seg.sn,
  put32 seg.una,
  put32 (u32 (length seg.payload)),
  arith,
)

-- What arrives with data is what the history has under its number.
abbrev pub Genuine : List (List ℕ) → KcpSegment → Type 0
Genuine history seg = get_elem? history seg.sn ≡ some seg.payload

get_header-nil : (r : Header × List ℕ) → get_header [] ≢ some r
unfolding get_header
get_header-nil r e = cc

-- What `input` reads is one of the segments, and the bytes behind it are the others.
pub record ReadsOne (S : KcpSegment → Type 0) (r : Header × List ℕ) : Type 0 where
  pub seg : KcpSegment
  pub seg_is : S seg
  pub header_eq : r.0 ≡ read_back seg
  pub payload_eq : take r.0.len r.1 ≡ seg.payload
  pub others : Framed S (drop r.0.len r.1)

module _ (S : KcpSegment → Type 0)
    (len_lt : (seg : KcpSegment) → S seg → IsU32 (length seg.payload)) where
  read_back-ReadsOne :
      (seg : KcpSegment) (segs : List KcpSegment)
      → S seg
      → All S segs
      → ReadsOne S (read_back seg, seg.payload ++ datagram segs)
  read_back-ReadsOne seg segs s a =
      let rest = datagram segs in
      let whole : u32 (length seg.payload) ≡ length seg.payload = omega (arith, len_lt seg s) in
      record {
        seg = seg;
        seg_is = s;
        header_eq = refl;
        payload_eq =
            ap (λ n. take n (seg.payload ++ rest)) whole ∙ take-length-append seg.payload rest;
        others =
            subst (Framed S)
              (sym (
                ap (λ n. drop n (seg.payload ++ rest)) whole ∙ drop-length-append seg.payload rest))
              (record { segs = segs; bytes_eq = refl; all_sound = a });
      }

  datagram-ReadsOne :
      (segs : List KcpSegment) (r : Header × List ℕ)
      → All S segs
      → get_header (datagram segs) ≡ some r
      → ReadsOne S r
  unfolding datagram
  datagram-ReadsOne [] r a e = absurd (get_header-nil r e)
  datagram-ReadsOne (seg ∷ segs) r (s, a) e =
      let same : (read_back seg, seg.payload ++ datagram segs) ≡ r =
        cc (get_header-read_back seg (datagram segs) (len_lt seg s), e) in
      subst (ReadsOne S) same (read_back-ReadsOne seg segs s a)

  pub Framed-ReadsOne :
      (bytes : List ℕ) (h : Header) (rest : List ℕ)
      → Framed S bytes
      → get_header bytes ≡ some (h, rest)
      → ReadsOne S (h, rest)
  Framed-ReadsOne bytes h rest c e =
      datagram-ReadsOne c.segs (h, rest) c.all_sound (sym (ap get_header c.bytes_eq) ∙ e)

-- Each segment that `input` reads from such bytes is genuine, and what follows is of the same kind,
-- while the numbers do not wrap.
pub Carries-read :
    (history : List (List ℕ))
    → length history < 2 ^ 32
    → (bytes : List ℕ) (h : Header) (rest : List ℕ) → Carries history bytes
    → get_header bytes ≡ some (h, rest)
    → ((h.cmd == kcp_cmd_push) ≡ true → Genuine history (pushed h (take h.len rest)))
      × Carries history (drop h.len rest)
Carries-read history few bytes h rest c e =
    let r = Framed-ReadsOne (Sound history) (λ seg s. s.len_lt) bytes h rest c e in
    (
      λ push.
          let there =
            r.seg_is.known (subst (λ x. (x.cmd == kcp_cmd_push) ≡ true) r.header_eq push) in
          let same : u32 r.seg.sn ≡ r.seg.sn = omega (arith, get_elem?-lt history r.seg.sn there) in
          ap (λ x. get_elem? history x.sn) r.header_eq
          ∙ ap (get_elem? history) same
          ∙ there
          ∙ ap some (sym r.payload_eq),
      r.others,
    )
