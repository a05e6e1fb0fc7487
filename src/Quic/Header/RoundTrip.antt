-- ===== src/Quic/Header/RoundTrip.antt =====
-- Headers that are written are read again.
use shb.Common.{
  ℕ, zero, suc, ◌+◌, ◌-◌, ◌%◌, ◌^◌, ◌≤◌, ◌<◌, ◌≡◌, refl, sym, ap, ◌∙◌, Bool, true, false, List, [],
  ◌∷◌, ◌++◌, append_assoc, append-nil, none, some, ltb, ◌==◌, length, length-append, bit_and,
  bit_or, arith,
}
use native.Mathlib.Nat.{mod-eq_of_lt}
use shb.Quic.Varint.RoundTrip.{encoding, put_varint-encoding}
use shb.Quic.Frame.{max_cid_len}
use shb.Quic.Recovery.Pto.{Space, initial, handshake, data_space}
use shb.Quic.Header.{
  Parsed, ok, ◌>>=◌, long_packet, short_packet, form_long, fixed_bit, long_type_mask, type_initial,
  type_handshake, decode_length, decode_kind, decode_version, decode_header, LongHeader,
  length_bits, type_of, put_varint_fixed4, put_token, put_kind, put_header, short_first,
  put_short_header, bad_dcid, bad_scid,
}
use shb.Quic.Header.Parts.{
  fixed4, first_tests, take_cid-all, decode_length-fixed4, skip_token-encoding,
}

-- A long header with its connection IDs, and what follows these.
abbrev layout : ℕ → List ℕ → List ℕ → List ℕ → List ℕ
layout first d s tail = first ∷ 0 ∷ 0 ∷ 0 ∷ 1 ∷ length d ∷ (d ++ (length s ∷ (s ++ tail)))

layout-append :
    (first : ℕ) (d s tail more : List ℕ)
    → layout first d s tail ++ more ≡ layout first d s (tail ++ more)
layout-append first d s tail more =
    ap (λ (x : List ℕ). first ∷ 0 ∷ 0 ∷ 0 ∷ 1 ∷ length d ∷ x)
      (append_assoc d (length s ∷ (s ++ tail)) more
        ∙ ap (λ (x : List ℕ). d ++ (length s ∷ x)) (append_assoc s tail more))

decode_header-layout :
    (first local_cid_len : ℕ) (d s tail : List ℕ)
    → (bit_and first form_long == 0) ≡ false
    → length d ≤ max_cid_len
    → length s ≤ max_cid_len
    → decode_header (layout first d s tail) local_cid_len
      ≡ decode_kind (layout first d s tail) (bit_and first long_type_mask) d s tail
unfolding decode_header decode_version
decode_header-layout first local_cid_len d s tail long hd hs =
    rw
      (
        long,
        take_cid-all 1 bad_dcid d (length s ∷ (s ++ tail)) hd (omega arith),
        take_cid-all 0 bad_scid s tail hs (omega arith),
      )
      refl

-- What stands between the connection IDs and the length.
abbrev token_part : Space → List ℕ → List ℕ
token_part initial token = encoding (length token) ++ token
token_part handshake token = []
token_part data_space token = []

abbrev first_of : ℕ → ℕ → ℕ
first_of kind n = bit_or (bit_or (bit_or form_long fixed_bit) kind) (length_bits n)

put_token-part :
    (space : Space) (token out : List ℕ)
    → length token < 2 ^ 62
    → put_token space token out ≡ out ++ token_part space token
put_token-part initial token out h =
    rw (put_varint-encoding out (length token) h) (append_assoc out (encoding (length token)) token)
put_token-part handshake token out h = sym (append-nil out)
put_token-part data_space token out h = sym (append-nil out)

put_kind-layout :
    (h : LongHeader) (kind pn_len payload_len : ℕ)
    → length h.dcid ≤ max_cid_len
    → length h.scid ≤ max_cid_len
    → length h.token < 2 ^ 62
    → put_kind h [] pn_len payload_len (some kind)
      ≡ some (
          layout
            (first_of kind pn_len)
            h.dcid
            h.scid
            (token_part h.space h.token ++ fixed4 payload_len))
unfolding put_varint_fixed4
put_kind-layout h kind pn_len payload_len hd hs ht =
    let ld : length h.dcid % 256 ≡ length h.dcid = mod-eq_of_lt (omega arith) in
    let ls : length h.scid % 256 ≡ length h.scid = mod-eq_of_lt (omega arith) in
    rw (ld, ls)
      (ap (λ (x : List ℕ). some (x ++ fixed4 payload_len))
          (put_token-part h.space h.token (before h.dcid h.scid) ht)
        ∙ ap (λ (x : List ℕ). some x)
            (append_assoc (before h.dcid h.scid) (token_part h.space h.token) (fixed4 payload_len)
              ∙ behind h.dcid h.scid (token_part h.space h.token ++ fixed4 payload_len)))
  where
    before : List ℕ → List ℕ → List ℕ
    before d s = first_of kind pn_len ∷ 0 ∷ 0 ∷ 0 ∷ 1 ∷ length d ∷ (d ++ (length s ∷ s))

    behind : (d s tail : List ℕ) → before d s ++ tail ≡ layout (first_of kind pn_len) d s tail
    behind d s tail =
        ap (λ (x : List ℕ). first_of kind pn_len ∷ 0 ∷ 0 ∷ 0 ∷ 1 ∷ length d ∷ x)
          (append_assoc d (length s ∷ s) tail)

-- The datagram that begins with a header, its payload behind it, and more behind that.
decode_header-some :
    (space : Space) (kind local_cid_len pn_len : ℕ) (d s token payload more out : List ℕ)
    → out ≡ layout (first_of kind pn_len) d s (token_part space token ++ fixed4 (length payload))
    → (bit_and (first_of kind pn_len) form_long == 0) ≡ false
    → length d ≤ max_cid_len
    → length s ≤ max_cid_len
    → length payload < 2 ^ 30
    → ((buf : List ℕ)
        → decode_kind buf
            (bit_and (first_of kind pn_len) long_type_mask)
            d
            s
            (token_part space token ++ (fixed4 (length payload) ++ (payload ++ more)))
          ≡ decode_length buf space s (fixed4 (length payload) ++ (payload ++ more)))
    → decode_header (out ++ (payload ++ more)) local_cid_len
      ≡ ok (long_packet space s (length out) (length out + length payload))
decode_header-some space kind local_cid_len pn_len d s token payload more out e long hd hs hp k =
    let tail = token_part space token ++ (fixed4 (length payload) ++ (payload ++ more)) in
    let buf = layout (first_of kind pn_len) d s tail in
    let shape : out ++ (payload ++ more) ≡ buf =
      ap (λ (x : List ℕ). x ++ (payload ++ more)) e
      ∙ (layout-append (first_of kind pn_len) d s
            (token_part space token ++ fixed4 (length payload)) (payload ++ more)
          ∙ ap (layout (first_of kind pn_len) d s) (
              append_assoc (token_part space token) (fixed4 (length payload)) (payload ++ more))) in
    let size : length buf ≡ length out + length (payload ++ more) =
      ap (λ (x : List ℕ). length x) (sym shape) ∙ length-append out (payload ++ more) in
    let start : length buf - length (payload ++ more) ≡ length out = omega arith in
    ap (λ (x : List ℕ). decode_header x local_cid_len) shape
    ∙ (decode_header-layout (first_of kind pn_len) local_cid_len d s tail long hd hs
        ∙ (k buf
            ∙ (decode_length-fixed4 buf space s payload more hp
                ∙ ap (λ (n : ℕ). ok (long_packet space s n (n + length payload))) start)))

shape_of :
    (h : LongHeader) (kind pn_len payload_len : ℕ) (out : List ℕ)
    → length h.dcid ≤ max_cid_len
    → length h.scid ≤ max_cid_len
    → length h.token < 2 ^ 62
    → type_of h.space ≡ some kind
    → put_header h [] pn_len payload_len ≡ some out
    → out
      ≡ layout
          (first_of kind pn_len)
          h.dcid
          h.scid
          (token_part h.space h.token ++ fixed4 payload_len)
unfolding put_header
shape_of h kind pn_len payload_len out hd hs ht k written =
    let e : some out
        ≡ some (
            layout (first_of kind pn_len) h.dcid h.scid
              (token_part h.space h.token ++ fixed4 payload_len)) =
      sym written
      ∙ (ap (put_kind h [] pn_len payload_len) k
          ∙ put_kind-layout h kind pn_len payload_len hd hs ht) in
    cc e

decode_kind-initial :
    (buf d s token rest : List ℕ)
    → length token < 2 ^ 62
    → decode_kind buf 0 d s ((encoding (length token) ++ token) ++ rest)
      ≡ decode_length buf initial s rest
decode_kind-initial buf d s token rest h =
    ap (λ (x : List ℕ). decode_kind buf 0 d s x) (append_assoc (encoding (length token)) token rest)
    ∙ ap (λ (r : Parsed (List ℕ)). r >>= decode_length buf initial s)
        (skip_token-encoding token rest h)

-- Where the connection IDs have at most 20 bytes, the token fewer than 2^62 and the payload fewer than
-- 2^30, and the packet number has one byte to four: a long header that is written with the length of
-- what follows it is read with its space and its source connection ID, the packet number right behind
-- it, and the end where the payload ends, whatever stands behind that in the datagram.
pub decode_header-put_header :
    (h : LongHeader) (local_cid_len pn_len : ℕ) (payload more out : List ℕ)
    → length h.dcid ≤ max_cid_len
    → length h.scid ≤ max_cid_len
    → length h.token < 2 ^ 62
    → 0 < pn_len
    → pn_len ≤ 4
    → length payload < 2 ^ 30
    → put_header h [] pn_len (length payload) ≡ some out
    → decode_header (out ++ (payload ++ more)) local_cid_len
      ≡ ok (long_packet h.space h.scid (length out) (length out + length payload))
unfolding put_header
decode_header-put_header h local_cid_len pn_len payload more out hd hs ht some_number within hp
      written =
    go h.space refl
  where
    tests :
        ((bit_and (first_of type_initial pn_len) form_long == 0) ≡ false)
        × (bit_and (first_of type_initial pn_len) long_type_mask ≡ 0)
        × ((bit_and (first_of type_handshake pn_len) form_long == 0) ≡ false)
        × (bit_and (first_of type_handshake pn_len) long_type_mask ≡ 0x20)
    tests = first_tests pn_len some_number within

    go :
        (space : Space)
        → h.space ≡ space
        → decode_header (out ++ (payload ++ more)) local_cid_len
          ≡ ok (long_packet h.space h.scid (length out) (length out + length payload))
    go initial e =
        let shape =
          shape_of h type_initial pn_len (length payload) out hd hs ht (ap type_of e) written in
        decode_header-some h.space type_initial local_cid_len pn_len h.dcid h.scid h.token payload
          more out shape tests.0 hd hs hp
          (λ buf.
            rw (tests.1, e)
              (decode_kind-initial buf h.dcid h.scid h.token
                (fixed4 (length payload) ++ (payload ++ more)) ht))
    go handshake e =
        let shape =
          shape_of h type_handshake pn_len (length payload) out hd hs ht (ap type_of e) written in
        decode_header-some h.space type_handshake local_cid_len pn_len h.dcid h.scid h.token payload
          more out shape tests.2 hd hs hp (λ buf. rw (tests.3, e) refl)
    go data_space e =
        let never : none ≡ some out =
          sym (ap (λ (t : Space). put_kind h [] pn_len (length payload) (type_of t)) e) ∙ written in
        absurd (cc)

short_test :
    (pn_len : ℕ) (key_phase : Bool)
    → 0 < pn_len
    → pn_len ≤ 4
    → (bit_and (short_first pn_len key_phase) form_long == 0) ≡ true
short_test zero key_phase h k = absurd (omega arith)
short_test (suc zero) true h k = refl
short_test (suc zero) false h k = refl
short_test (suc (suc zero)) true h k = refl
short_test (suc (suc zero)) false h k = refl
short_test (suc (suc (suc zero))) true h k = refl
short_test (suc (suc (suc zero))) false h k = refl
short_test (suc (suc (suc (suc zero)))) true h k = refl
short_test (suc (suc (suc (suc zero)))) false h k = refl
short_test (suc (suc (suc (suc (suc n))))) key_phase h k = absurd (omega arith)

-- A short header is read with the packet number right behind it, by an end whose connection IDs have
-- that length, where at least four bytes follow it.
pub decode_header-put_short_header :
    (dcid rest : List ℕ) (pn_len : ℕ) (key_phase : Bool)
    → 0 < pn_len
    → pn_len ≤ 4
    → 4 ≤ length rest
    → decode_header (put_short_header [] dcid pn_len key_phase ++ rest) (length dcid)
      ≡ ok (short_packet (1 + length dcid) (1 + length dcid + length rest))
unfolding decode_header put_short_header
decode_header-put_short_header dcid rest pn_len key_phase h k four =
    let test = short_test pn_len key_phase h k in
    let size = length-append dcid rest in
    let whole : suc (length (dcid ++ rest)) ≡ 1 + length dcid + length rest = omega arith in
    let room : ltb (suc (length (dcid ++ rest))) (1 + length dcid + 4) ≡ false = ground arith in
    rw (test, room, whole) refl
