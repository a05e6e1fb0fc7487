-- ===== src/Quic/Transport/Encoded.antt =====
-- A server that decodes as `Params::decode` does reads what `LocalParams::encode` says.
use shb.Common.{
  ℕ, ◌^◌, ◌≤◌, ◌<◌, ◌≡◌, refl, sym, ap, ◌∙◌, false, List, [], ◌∷◌, ◌++◌, append_assoc, append-nil,
  none, some, ltb, leb, if_elim, length, arith,
}
use shb.Quic.Varint.{put_varint}
use shb.Quic.Varint.RoundTrip.{encoding, put_varint-encoding}
use shb.Quic.Frame.{max_cid_len}
use shb.Quic.Transport.{
  Outcome, ok, err, ◌>>=◌, Params, default_params, LocalParams, set_param, decode_from,
  decode_params, put_param, encode_params, own_connection_id_limit,
}
use shb.Quic.Transport.Loop.{decode_from-nil}
use shb.Quic.Transport.RoundTrip.{sent_param, decode_from-sent, int-encoding}

length-encoding_le : (v : ℕ) → length (encoding v) ≤ 8
length-encoding_le v =
    if_elim (λ (x : List ℕ). length x ≤ 8) (leb v 0x3f) (λ h. omega arith)
      (λ h.
        if_elim (λ (x : List ℕ). length x ≤ 8) (leb v 0x3fff) (λ h. omega arith)
          (λ h.
            if_elim (λ (x : List ℕ). length x ≤ 8) (leb v 0x3fff_ffff) (λ h. omega arith)
              (λ h. omega arith)))

-- Numbers under their identifiers, one after the other.
abbrev put_all : List ℕ → List (ℕ × ℕ) → List ℕ
put_all out [] = out
put_all out ((id, v) ∷ ps) = put_all (put_param out id v) ps

abbrev sent_all : List (ℕ × ℕ) → List ℕ
sent_all [] = []
sent_all ((id, v) ∷ ps) = sent_param id (encoding v) ++ sent_all ps

abbrev set_all : Params → List (ℕ × ℕ) → Outcome Params
set_all p [] = ok p
set_all p ((id, v) ∷ ps) = set_param p id (encoding v) >>= λ q. set_all q ps

abbrev AllVarints : List (ℕ × ℕ) → Type 0
AllVarints [] = Unit
AllVarints ((id, v) ∷ ps) = (id < 2 ^ 62) × (v < 2 ^ 62) × AllVarints ps

put_param-sent :
    (out : List ℕ) (id v : ℕ)
    → id < 2 ^ 62
    → v < 2 ^ 62
    → put_param out id v ≡ out ++ sent_param id (encoding v)
put_param-sent out id v h k =
    let value = put_varint-encoding [] v k in
    let size =
      put_varint-encoding (out ++ encoding id) (length (encoding v))
        (omega (arith, length-encoding_le v)) in
    rw (value, put_varint-encoding out id h, size)
      (append_assoc (out ++ encoding id) (encoding (length (encoding v))) (encoding v)
        ∙ append_assoc out (encoding id) (encoding (length (encoding v)) ++ encoding v))

put_all-sent :
    (out : List ℕ) (ps : List (ℕ × ℕ)) → AllVarints ps → put_all out ps ≡ out ++ sent_all ps
put_all-sent out [] h = sym (append-nil out)
put_all-sent out ((id, v) ∷ ps) (h, k, hs) =
    put_all-sent (put_param out id v) ps hs
    ∙ (ap (λ (x : List ℕ). x ++ sent_all ps) (put_param-sent out id v h k)
        ∙ append_assoc out (sent_param id (encoding v)) (sent_all ps))

decode_from-sent_all :
    (p : Params) (ps : List (ℕ × ℕ)) (more : List ℕ)
    → AllVarints ps
    → decode_from p (sent_all ps ++ more) ≡ (set_all p ps >>= λ q. decode_from q more)
decode_from-sent_all p [] more h = refl
decode_from-sent_all p ((id, v) ∷ ps) more (h, k, hs) =
    ap (decode_from p) (append_assoc (sent_param id (encoding v)) (sent_all ps) more)
    ∙ (decode_from-sent p id (encoding v) (sent_all ps ++ more) h
          (omega (arith, length-encoding_le v))
        ∙ go (λ q. decode_from-sent_all q ps more hs) (set_param p id (encoding v)))
  where
    go :
        ((q : Params)
          → decode_from q (sent_all ps ++ more) ≡ (set_all q ps >>= λ q. decode_from q more))
        → (r : Outcome Params)
        → (r >>= λ q. decode_from q (sent_all ps ++ more))
          ≡ (r >>= (λ q. set_all q ps) >>= λ q. decode_from q more)
    go ih (err e) = refl
    go ih (ok q) = ih q

-- The numbers among our parameters, in the order of `encode`.
abbrev numbers : LocalParams → List (ℕ × ℕ)
numbers p =
    (0x04, p.initial_max_data)
    ∷ (0x05, p.initial_max_stream_data_bidi_local)
    ∷ (0x07, p.initial_max_stream_data_uni)
    ∷ (0x09, p.initial_max_streams_uni)
    ∷ (0x08, 0)
    ∷ (0x01, p.max_idle_timeout_ms)
    ∷ (0x03, p.max_udp_payload_size)
    ∷ (0x0b, 0)
    ∷ (0x0e, own_connection_id_limit)
    ∷ []

-- What a peer knows of us: the defaults, but for what we say.
abbrev pub as_seen : LocalParams → Params
as_seen p = record default_params {
  initial_max_data = p.initial_max_data;
  initial_max_stream_data_bidi_local = p.initial_max_stream_data_bidi_local;
  initial_max_stream_data_uni = p.initial_max_stream_data_uni;
  initial_max_streams_uni = p.initial_max_streams_uni;
  max_idle_timeout_ms = p.max_idle_timeout_ms;
  max_udp_payload_size = p.max_udp_payload_size;
  max_ack_delay_ms = 0;
  active_connection_id_limit = 2;
  initial_source_connection_id = some p.source_connection_id;
}

-- Each number fits a varint, and the connection ID is no longer than it may be.
abbrev pub IsEncodable : LocalParams → Type 0
IsEncodable p =
    (p.initial_max_data < 2 ^ 62)
    × (p.initial_max_stream_data_bidi_local < 2 ^ 62)
    × (p.initial_max_stream_data_uni < 2 ^ 62)
    × (p.initial_max_streams_uni < 2 ^ 62)
    × (p.max_idle_timeout_ms < 2 ^ 62)
    × (p.max_udp_payload_size < 2 ^ 62)
    × (length p.source_connection_id ≤ max_cid_len)

numbers-AllVarints : (p : LocalParams) → IsEncodable p → AllVarints (numbers p)
numbers-AllVarints p (a, b, c, d, e, f, g) = (
  omega arith,
  a,
  (
    omega arith,
    b,
    (
      omega arith,
      c,
      (
        omega arith,
        d,
        (
          omega arith,
          omega arith,
          (
            omega arith,
            e,
            (omega arith, f, (omega arith, omega arith, (omega arith, omega arith, tt))),
          ),
        ),
      ),
    ),
  ),
)

-- The numbers that an exponent test, a delay test or a limit test lets pass.
set_all-numbers :
    (p : LocalParams)
    → IsEncodable p
    → set_all default_params (numbers p)
      ≡ ok (record (as_seen p) { initial_source_connection_id = none })
unfolding set_param
set_all-numbers p (a, b, c, d, e, f, g) =
    let zero_bytes = int-encoding 0 (omega arith) in
    let two_bytes = int-encoding 2 (omega arith) in
    rw
      (
        int-encoding p.initial_max_data a,
        int-encoding p.initial_max_stream_data_bidi_local b,
        int-encoding p.initial_max_stream_data_uni c,
        int-encoding p.initial_max_streams_uni d,
        int-encoding p.max_idle_timeout_ms e,
        int-encoding p.max_udp_payload_size f,
        zero_bytes,
        two_bytes,
      )
      refl

set_cid :
    (q : Params) (cid : List ℕ)
    → length cid ≤ max_cid_len
    → set_param q 0x0f cid ≡ ok (record q { initial_source_connection_id = some cid })
unfolding set_param
set_cid q cid h = let short : ltb max_cid_len (length cid) ≡ false = ground arith in rw short refl

encode_params-sent :
    (p : LocalParams)
    → IsEncodable p
    → encode_params p ≡ sent_all (numbers p) ++ sent_param 0x0f p.source_connection_id
unfolding encode_params
encode_params-sent p (a, b, c, d, e, f, g) =
    let front = put_all-sent [] (numbers p) (numbers-AllVarints p (a, b, c, d, e, f, g)) in
    let name = put_varint-encoding (put_all [] (numbers p)) 0x0f (omega arith) in
    let size =
      put_varint-encoding (put_all [] (numbers p) ++ encoding 0x0f) (length p.source_connection_id)
        (omega arith) in
    ap (λ (out : List ℕ). put_varint out (length p.source_connection_id) ++ p.source_connection_id)
      name
    ∙ (ap (λ (out : List ℕ). out ++ p.source_connection_id) size
        ∙ (append_assoc (put_all [] (numbers p) ++ encoding 0x0f)
              (encoding (length p.source_connection_id)) p.source_connection_id
            ∙ (append_assoc (put_all [] (numbers p)) (encoding 0x0f)
                  (encoding (length p.source_connection_id) ++ p.source_connection_id)
                ∙ ap (λ (out : List ℕ). out ++ sent_param 0x0f p.source_connection_id) front)))

-- Where the numbers fit a varint and the connection ID is at most 20 bytes, what is encoded is
-- accepted, and decodes to the defaults with just what was said in their place.
pub decode_params-encode_params :
    (p : LocalParams) → IsEncodable p → decode_params (encode_params p) ≡ ok (as_seen p)
decode_params-encode_params p (a, b, c, d, e, f, g) =
    let h : IsEncodable p = (a, b, c, d, e, f, g) in
    let q : Params = record (as_seen p) { initial_source_connection_id = none } in
    let cid = p.source_connection_id in
    ap decode_params (encode_params-sent p h)
    ∙ (decode_from-sent_all default_params (numbers p) (sent_param 0x0f cid)
          (numbers-AllVarints p h)
        ∙ (ap (λ (r : Outcome Params). r >>= λ q. decode_from q (sent_param 0x0f cid))
              (set_all-numbers p h)
            ∙ (ap (decode_from q) (sym (append-nil (sent_param 0x0f cid)))
                ∙ (decode_from-sent q 0x0f cid [] (omega arith) (omega arith)
                    ∙ (ap (λ (r : Outcome Params). r >>= λ q. decode_from q []) (set_cid q cid g)
                        ∙ decode_from-nil (as_seen p))))))
