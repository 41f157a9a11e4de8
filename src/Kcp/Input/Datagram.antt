-- ===== src/Kcp/Input/Datagram.antt =====
-- `input` on what the peer's `encode` wrote: the segments, one after the other.
use kcp_scream_testspace.Common.{
  ℕ, zero, suc, ◌*◌, ◌≤◌, ◌<◌, ◌≡◌, refl, sym, ◌∙◌, false, none, List, [], ◌∷◌, ◌++◌, All, length,
  take, arith, ltb, length-append, take-length-append, drop-length-append, take_all,
}
use kcp_scream_testspace.Kcp.Segment.{KcpSegment, Header, encode, get_header, kcp_overhead}
use kcp_scream_testspace.Kcp.Segment.RoundTrip.{
  IsWire, header_of, get_header-encode, encoded_len-ge, length-encode,
}
use kcp_scream_testspace.Kcp.State.{Kcp, Result, ok, err, panic}
use kcp_scream_testspace.Kcp.Input.{
  Progress, answer, and_then, check_conv, take_push, take_una, take_segment, dispatch, round,
  input_loop, input, start,
}

take_payload :
    (n : ℕ) (payload rest : List ℕ) → n ≡ length payload → take n (payload ++ rest) ≡ take n payload
take_payload n payload rest e = rw e (take-length-append payload rest ∙ sym (take_all payload))

get_header-nil : get_header [] ≡ none
unfolding get_header
get_header-nil = refl

-- A datagram of several segments, as `flush` writes it.
unfoldable pub datagram : List KcpSegment → List ℕ
datagram [] = []
datagram (seg ∷ segs) = encode seg [] ++ datagram segs

length-datagram : (segs : List KcpSegment) → kcp_overhead * length segs ≤ length (datagram segs)
unfolding datagram
length-datagram [] = omega arith
length-datagram (seg ∷ segs) = omega (
  arith,
  length-datagram segs,
  length-encode seg [],
  encoded_len-ge seg,
  length-append (encode seg []) (datagram segs),
)

module _ {O : Type 0} where
  -- Processing the segments themselves, with no bytes in between.
  pub rounds : List KcpSegment → Progress O → Result (Unit {0}) × Progress O
  rounds [] p = (ok tt, p)
  rounds (seg ∷ segs) p = and_then (round (header_of seg) seg.payload p) (rounds segs)

  dispatch-append :
      (h : Header) (payload rest : List ℕ) (p : Progress O)
      → h.len ≡ length payload
      → dispatch h (payload ++ rest) p ≡ dispatch h payload p
  unfolding dispatch take_push
  dispatch-append h payload rest p e = rw (take_payload h.len payload rest e)

  take_segment-append :
      (r : Result (Kcp O)) (h : Header) (payload rest : List ℕ) (p : Progress O)
      → h.len ≡ length payload
      → take_segment r h (payload ++ rest) p ≡ take_segment r h payload p
  unfolding take_segment
  take_segment-append (err x) h payload rest p e = refl
  take_segment-append panic h payload rest p e = refl
  take_segment-append (ok k) h payload rest p e =
      let whole : ltb (length payload) h.len ≡ false = ground arith in
      let more : ltb (length (payload ++ rest)) h.len ≡ false =
        ground (arith, length-append payload rest) in
      rw (whole, more, dispatch-append h payload rest (record p { kcp = take_una h k }) e)

  -- A round looks no further than the payload.
  round-append :
      (h : Header) (payload rest : List ℕ) (p : Progress O)
      → h.len ≡ length payload
      → round h (payload ++ rest) p ≡ round h payload p
  unfolding round
  round-append h payload rest p e = take_segment-append (check_conv h.conv p.kcp) h payload rest p e

  -- A round that succeeds, or not, and then the loop: by the cases of its result.
  and_then-cong :
      (r : Result (Unit {0}) × Progress O) (f g : Progress O → Result (Unit {0}) × Progress O)
      → ((p : Progress O) → f p ≡ g p)
      → and_then r f ≡ and_then r g
  and_then-cong (ok _, p) f g h = h p
  and_then-cong (err e, p) f g h = refl
  and_then-cong (panic, p) f g h = refl

  input_loop-datagram :
      (fuel : ℕ) (segs : List KcpSegment) (p : Progress O)
      → All IsWire segs
      → length segs < fuel
      → input_loop fuel (datagram segs) p ≡ rounds segs p
  unfolding input_loop rounds datagram
  input_loop-datagram zero segs p w h = absurd (omega arith)
  input_loop-datagram (suc fuel) [] p w h = rw (get_header-nil, input_loop)
  input_loop-datagram (suc fuel) (seg ∷ segs) p (w, ws) h =
      rw
        (
          get_header-encode seg (datagram segs) w,
          input_loop,
          round-append (header_of seg) seg.payload (datagram segs) p refl,
          drop-length-append seg.payload (datagram segs),
        )
        (and_then-cong (round (header_of seg) seg.payload p) (input_loop fuel (datagram segs))
          (rounds segs) (λ q. input_loop-datagram fuel segs q ws (omega arith)))

  -- A datagram of encoded segments has the effect of its segments, taken one after the other: they
  -- are read back field by field, and the result is theirs. There is at least one segment, and
  -- every field fits its place on the wire.
  pub input-datagram :
      (segs : List KcpSegment) (k : Kcp O)
      → All IsWire segs
      → 0 < length segs
      → input (datagram segs) k ≡ answer k.snd_una (rounds segs (start k))
  unfolding input
  input-datagram segs k w h =
      let size = length-datagram segs in
      let long : ltb (length (datagram segs)) kcp_overhead ≡ false = ground arith in
      rw (long, input_loop-datagram (length (datagram segs)) segs (start k) w (omega arith))
