-- ===== src/Quic/Header/Bounds.antt =====
-- A header that is decoded lies within its datagram.
use shb.Common.{
  ℕ, ◌+◌, ◌-◌, ◌%◌, ◌≤◌, ◌<◌, ◌≡◌, false, not, ◌||◌, List, [], ◌∷◌, Option, none, some, ltb, ◌==◌,
  if_elim, length, take, drop, length-take, length-drop, bit_and, arith,
}
use shb.Quic.Varint.{get_varint}
use shb.Quic.Frame.{max_cid_len}
use shb.Quic.Recovery.Pto.{Space, initial, handshake}
use shb.Quic.Header.{
  HeaderError, Parsed, ok, err, ◌>>=◌, Incoming, long_packet, short_packet, retry_packet,
  version_negotiation, form_long, long_type_mask, type_retry, type_initial, type_handshake,
  version_1, take_cid, varint_at, past_token, packet_end, decode_length, decode_kind,
  decode_version, decode_scid, decode_long, decode_header, be_u32, bad_dcid, bad_scid, token_length,
  length_field,
}

-- The number starts behind the first byte, a packet ends within the datagram and not before its number,
-- a short header has four bytes behind it, connection IDs are no longer than they may be, and versions
-- are whole.
abbrev pub IsWithin : List ℕ → Incoming → Type 0
IsWithin buf (long_packet space scid pn end_at) =
    (0 < pn) × (pn ≤ end_at) × (end_at ≤ length buf) × (length scid ≤ max_cid_len)
IsWithin buf (short_packet pn end_at) = (0 < pn) × (pn + 4 ≤ end_at) × (end_at ≤ length buf)
IsWithin buf (retry_packet dcid scid token) =
    (length dcid ≤ max_cid_len) × (length scid ≤ max_cid_len) × (length token + 16 ≤ length buf)
IsWithin buf (version_negotiation dcid scid versions) =
    (length dcid ≤ max_cid_len) × (length scid ≤ max_cid_len) × (length versions % 4 ≡ 0)

Sound : List ℕ → Parsed Incoming → Type 0
Sound buf (err e) = Unit
Sound buf (ok p) = IsWithin buf p

-- What a reader leaves is shorter than the datagram.
Less {ℓ} : {A : Type ℓ} → List ℕ → Parsed (A × List ℕ) → Type 0
Less buf (err e) = Unit
Less buf (ok (a, rest)) = length rest < length buf

varint_at-Less :
    (e : HeaderError) (buf rest : List ℕ) (o : Option (ℕ × ℕ))
    → length rest < length buf
    → Less buf (varint_at e rest o)
unfolding Less
varint_at-Less e buf rest none h = tt
varint_at-Less e buf rest (some (v, n)) h = omega (arith, length-drop n rest)

decode_length-Sound :
    (buf : List ℕ) (space : Space) (scid rest : List ℕ)
    → length rest < length buf
    → length scid ≤ max_cid_len
    → Sound buf (decode_length buf space scid rest)
unfolding Sound Less
decode_length-Sound buf space scid rest h k =
    go (varint_at length_field rest (get_varint rest))
      (varint_at-Less length_field buf rest (get_varint rest) h)
  where
    go : (r : Parsed (ℕ × List ℕ)) → Less buf r → Sound buf (r >>= packet_end buf space scid)
    go (err e) v = tt
    go (ok (len, left)) v =
        if_elim (Sound buf) (ltb (length left) len) (λ long. tt)
          (λ fits. (omega arith, omega arith, ground arith, k))

decode_kind-Sound :
    (buf : List ℕ) (kind : ℕ) (dcid scid rest : List ℕ)
    → length rest < length buf
    → length dcid ≤ max_cid_len
    → length scid ≤ max_cid_len
    → Sound buf (decode_kind buf kind dcid scid rest)
unfolding Sound Less
decode_kind-Sound buf kind dcid scid rest h kd ks =
    if_elim (Sound buf) (kind == type_retry)
      (λ retry.
        if_elim (Sound buf) (ltb (length rest) 16) (λ short. tt)
          (λ long. (kd, ks, ground (arith, length-take (length rest - 16) rest))))
      (λ other.
        if_elim (Sound buf) (kind == type_initial)
          (λ first.
            on_token (varint_at token_length rest (get_varint rest))
              (varint_at-Less token_length buf rest (get_varint rest) h))
          (λ other.
            if_elim (Sound buf) (kind == type_handshake)
              (λ second. decode_length-Sound buf handshake scid rest h ks) (λ zero. tt)))
  where
    on_token :
        (r : Parsed (ℕ × List ℕ))
        → Less buf r
        → Sound buf (r >>= past_token >>= decode_length buf initial scid)
    on_token (err e) v = tt
    on_token (ok (len, left)) v =
        if_elim (λ (r : Parsed (List ℕ)). Sound buf (r >>= decode_length buf initial scid))
          (ltb (length left) len) (λ long. tt)
          (λ fits.
            decode_length-Sound buf initial scid (drop len left)
              (omega (arith, length-drop len left)) ks)

decode_version-Sound :
    (buf : List ℕ) (first version : ℕ) (dcid scid rest : List ℕ)
    → length rest < length buf
    → length dcid ≤ max_cid_len
    → length scid ≤ max_cid_len
    → Sound buf (decode_version buf first version dcid (scid, rest))
unfolding Sound decode_version
decode_version-Sound buf first version dcid scid rest h kd ks =
    if_elim (Sound buf) (version == 0)
      (λ negotiate. (kd, ks, omega (arith, length-take (length rest - length rest % 4) rest)))
      (λ other.
        if_elim (Sound buf) (not (version == version_1)) (λ unknown. tt)
          (λ known. decode_kind-Sound buf (bit_and first long_type_mask) dcid scid rest h kd ks))

-- A connection ID, and what follows it.
take_cid-then :
    (buf : List ℕ) (spare : ℕ) (e : HeaderError) (n : ℕ) (rest : List ℕ)
    (f : List ℕ × List ℕ → Parsed Incoming)
    → length rest < length buf
    → ((cid left : List ℕ)
        → length cid ≤ max_cid_len
        → length left < length buf
        → Sound buf (f (cid, left)))
    → Sound buf (take_cid spare e n rest >>= f)
unfolding Sound
take_cid-then buf spare e n rest f h k =
    if_elim (λ (r : Parsed (List ℕ × List ℕ)). Sound buf (r >>= f))
      (ltb max_cid_len n || ltb (length rest) (n + spare)) (λ bad. tt)
      (λ good. k (take n rest) (drop n rest) (short good) (omega (arith, length-drop n rest)))
  where
    short :
        (ltb max_cid_len n || ltb (length rest) (n + spare)) ≡ false
        → length (take n rest) ≤ max_cid_len
    short good = ground (arith, length-take n rest)

decode_long-Sound :
    (buf bytes : List ℕ) → length bytes ≤ length buf → Sound buf (decode_long buf bytes)
unfolding Sound
decode_long-Sound buf [] h = tt
decode_long-Sound buf (a ∷ []) h = tt
decode_long-Sound buf (a ∷ b ∷ []) h = tt
decode_long-Sound buf (a ∷ b ∷ c ∷ []) h = tt
decode_long-Sound buf (a ∷ b ∷ c ∷ d ∷ []) h = tt
decode_long-Sound buf (a ∷ b ∷ c ∷ d ∷ e ∷ []) h = tt
decode_long-Sound buf (first ∷ a ∷ b ∷ c ∷ d ∷ dcid_len ∷ rest) h =
    take_cid-then buf 1 bad_dcid dcid_len rest (decode_scid buf first (be_u32 a b c d))
      (omega arith) after_dcid
  where
    after_dcid :
        (dcid left : List ℕ)
        → length dcid ≤ max_cid_len
        → length left < length buf
        → Sound buf (decode_scid buf first (be_u32 a b c d) (dcid, left))
    after_dcid dcid [] k l = tt
    after_dcid dcid (scid_len ∷ left) k l =
        take_cid-then buf 0 bad_scid scid_len left (decode_version buf first (be_u32 a b c d) dcid)
          (omega arith)
          (λ scid after ks la.
            decode_version-Sound buf first (be_u32 a b c d) dcid scid after la k ks)

decode_header-Sound :
    (buf : List ℕ) (local_cid_len : ℕ) → Sound buf (decode_header buf local_cid_len)
unfolding Sound decode_header
decode_header-Sound [] local_cid_len = tt
decode_header-Sound (first ∷ rest) local_cid_len =
    if_elim (Sound (first ∷ rest)) (bit_and first form_long == 0)
      (λ short.
        if_elim (Sound (first ∷ rest)) (ltb (length (first ∷ rest)) (1 + local_cid_len + 4))
          (λ cut. tt) (λ whole. (omega arith, ground arith, omega arith)))
      (λ long. decode_long-Sound (first ∷ rest) (first ∷ rest) (omega arith))

-- Whatever the datagram, a header that is accepted lies within it: no offset points past its end,
-- every packet takes at least a byte, and every connection ID is at most 20 bytes.
pub decode_header-IsWithin :
    (buf : List ℕ) (local_cid_len : ℕ) (p : Incoming)
    → decode_header buf local_cid_len ≡ ok p
    → IsWithin buf p
unfolding Sound
decode_header-IsWithin buf local_cid_len p h = rw h at (decode_header-Sound buf local_cid_len)
