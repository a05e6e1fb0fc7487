-- ===== src/Quic/Transport/RoundTrip.antt =====
-- What is encoded is decoded again.
use shb.Common.{
  ℕ, ◌^◌, ◌<◌, ◌≡◌, refl, ap, ◌∙◌, true, false, List, [], ◌∷◌, ◌++◌, append_assoc, append-nil, some,
  ltb, leb, ◌==◌, if_elim, length, arith, length-append,
}
use shb.Quic.Varint.{get_varint}
use shb.Quic.Varint.RoundTrip.{encoding, get-encoding}
use shb.Prefix.Strings.{take-length}
use shb.Quic.Transport.{
  ParamError, Outcome, ok, err, ◌>>=◌, Params, int, set_param, take_varint, take_value, turn,
  on_turn, decode_from, truncated_id, truncated_length,
}
use shb.Quic.Transport.Loop.{decode_from-turn}

length-encoding_positive : (v : ℕ) → 0 < length (encoding v)
length-encoding_positive v =
    if_elim (λ (x : List ℕ). 0 < length x) (leb v 0x3f) (λ h. omega arith)
      (λ h.
        if_elim (λ (x : List ℕ). 0 < length x) (leb v 0x3fff) (λ h. omega arith)
          (λ h.
            if_elim (λ (x : List ℕ). 0 < length x) (leb v 0x3fff_ffff) (λ h. omega arith)
              (λ h. omega arith)))

-- A parameter as it is sent: its number, the length of its value, and the value.
abbrev pub sent_param : ℕ → List ℕ → List ℕ
sent_param id value = encoding id ++ (encoding (length value) ++ value)

take_varint-encoding :
    (e : ParamError) (v : ℕ) (more : List ℕ)
    → v < 2 ^ 62
    → take_varint e (encoding v ++ more) ≡ ok (v, more)
take_varint-encoding e v more h =
    rw (get-encoding v more h) (ap (λ (x : List ℕ). ok (v, x)) (take-length (encoding v) more).1)

take_value-all :
    (value more : List ℕ) → take_value (length value) (value ++ more) ≡ ok (value, more)
take_value-all value more =
    let (a, b) = take-length value more in
    let fits : ltb (length (value ++ more)) (length value) ≡ false =
      ground (arith, length-append value more) in
    rw (fits, a, b) refl

turn-sent :
    (p : Params) (id : ℕ) (value more : List ℕ)
    → id < 2 ^ 62
    → length value < 2 ^ 62
    → turn p (encoding id ++ (encoding (length value) ++ (value ++ more)))
      ≡ (set_param p id value >>= λ out. ok (out, more))
unfolding turn
turn-sent p id value more h k =
    rw
      (
        take_varint-encoding truncated_id id (encoding (length value) ++ (value ++ more)) h,
        take_varint-encoding truncated_length (length value) (value ++ more) k,
        take_value-all value more,
      )
      refl

decode_from-some :
    (p : Params) (buf : List ℕ)
    → 0 < length buf
    → decode_from p buf ≡ on_turn decode_from (turn p buf)
decode_from-some p [] h = absurd (omega arith)
decode_from-some p (b ∷ buf) h = decode_from-turn p b buf

-- One parameter in front of the others.
pub decode_from-sent :
    (p : Params) (id : ℕ) (value more : List ℕ)
    → id < 2 ^ 62
    → length value < 2 ^ 62
    → decode_from p (sent_param id value ++ more)
      ≡ (set_param p id value >>= λ q. decode_from q more)
decode_from-sent p id value more h k =
    let whole : sent_param id value ++ more
        ≡ encoding id ++ (encoding (length value) ++ (value ++ more)) =
      append_assoc (encoding id) (encoding (length value) ++ value) more
      ∙ ap (λ (x : List ℕ). encoding id ++ x) (append_assoc (encoding (length value)) value more) in
    let long : 0 < length (encoding id ++ (encoding (length value) ++ (value ++ more))) = omega (
      arith,
      length-append (encoding id) (encoding (length value) ++ (value ++ more)),
      length-encoding_positive id,
    ) in
    ap (decode_from p) whole
    ∙ (decode_from-some p _ long
        ∙ (ap (on_turn decode_from) (turn-sent p id value more h k) ∙ go (set_param p id value)))
  where
    go :
        (r : Outcome Params)
        → on_turn decode_from (r >>= λ out. ok (out, more)) ≡ (r >>= λ q. decode_from q more)
    go (err e) = refl
    go (ok q) = refl

pub int-encoding : (v : ℕ) → v < 2 ^ 62 → int (encoding v) ≡ ok v
unfolding int
int-encoding v h =
    let found : get_varint (encoding v) ≡ some (v, length (encoding v)) =
      rw (append-nil (encoding v)) at (get-encoding v [] h) in
    let same : (length (encoding v) == length (encoding v)) ≡ true = ground arith in
    rw (found, same) refl
