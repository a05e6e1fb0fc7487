-- ===== src/Quic/Transport/Accepted.antt =====
-- The bounds that every accepted set of parameters is within.
use shb.Common.{
  ℕ, zero, suc, ◌^◌, ◌≤◌, ◌<◌, ◌≡◌, Bool, true, false, not, List, [], ◌∷◌, Option, none, some, ltb,
  ◌==◌, if◌then◌else◌, if_elim, length, arith,
}
use shb.Quic.Frame.{max_cid_len}
use shb.Quic.Transport.{
  ParamError, Outcome, ok, err, ◌>>=◌, Params, default_params, int, cid_of, checked, set_param,
  take_varint, take_value, turn, on_turn, decode_fuel, decode_params, exponent_above,
  ack_delay_above, limit_below, truncated_id, truncated_length,
}

abbrev pub IsCid : Option (List ℕ) → Type 0
IsCid none = Unit
IsCid (some c) = length c ≤ max_cid_len

abbrev pub IsToken : Option (List ℕ) → Type 0
IsToken none = Unit
IsToken (some t) = length t ≡ 16

-- The limits of RFC 9000, section 18.2, on the parameters that are read.
abbrev pub IsAllowed : Params → Type 0
IsAllowed p =
    (p.ack_delay_exponent ≤ 20)
    × (p.max_ack_delay_ms < 2 ^ 14)
    × (2 ≤ p.active_connection_id_limit)
    × IsCid p.initial_source_connection_id
    × IsCid p.original_destination_connection_id
    × IsCid p.retry_source_connection_id
    × IsToken p.stateless_reset_token

Passes : Outcome Params → Type 0
Passes (err e) = Unit
Passes (ok p) = IsAllowed p

either : (b : Bool) (x y : Outcome Params) → Passes x → Passes y → Passes (if b then x else y)
either true x y v w = v
either false x y v w = w

then_set : (r : Outcome ℕ) (f : ℕ → Outcome Params) → ((v : ℕ) → Passes (f v)) → Passes (r >>= f)
unfolding Passes
then_set (err e) f h = tt
then_set (ok v) f h = h v

then_checked :
    (bad : ℕ → Bool) (e : ParamError) (f : ℕ → Params)
    → ((v : ℕ) → bad v ≡ false → IsAllowed (f v))
    → (v : ℕ) → Passes (checked (bad v) e v >>= λ v. ok (f v))
unfolding Passes
then_checked bad e f h v =
    if_elim (λ (r : Outcome ℕ). Passes (r >>= λ v. ok (f v))) (bad v) (λ over. tt)
      (λ within. h v within)

then_cid :
    (value : List ℕ) (f : List ℕ → Params)
    → (length value ≤ max_cid_len → IsAllowed (f value))
    → Passes (cid_of value >>= λ c. ok (f c))
unfolding Passes
then_cid value f h =
    if_elim (λ (r : Outcome (List ℕ)). Passes (r >>= λ c. ok (f c)))
      (ltb max_cid_len (length value)) (λ long. tt) (λ short. h (ground arith))

set_param-Passes :
    (p : Params) (id : ℕ) (value : List ℕ) → IsAllowed p → Passes (set_param p id value)
unfolding set_param Passes
set_param-Passes p id value (e, d, l, i, o, r, t) =
    let a : IsAllowed p = (e, d, l, i, o, r, t) in
    either (id == 0x01) _ _ (then_set (int value) _ (λ v. a)) (
      either (id == 0x03) _ _ (then_set (int value) _ (λ v. a)) (
        either (id == 0x04) _ _ (then_set (int value) _ (λ v. a)) (
          either (id == 0x05) _ _ (then_set (int value) _ (λ v. a)) (
            either (id == 0x06) _ _ (then_set (int value) _ (λ v. a)) (
              either (id == 0x07) _ _ (then_set (int value) _ (λ v. a)) (
                either (id == 0x08) _ _ (then_set (int value) _ (λ v. a)) (
                  either (id == 0x09) _ _ (then_set (int value) _ (λ v. a)) (
                    either (id == 0x0a) _ _
                      (then_set (int value) _ (
                        then_checked (λ v. ltb 20 v) exponent_above
                          (λ v. record p { ack_delay_exponent = v })
                          (λ v h. (ground arith, d, l, i, o, r, t))))
                      (either (id == 0x0b) _ _
                        (then_set (int value) _ (
                          then_checked (λ v. not (ltb v (2 ^ 14))) ack_delay_above
                            (λ v. record p { max_ack_delay_ms = v })
                            (λ v h. (e, below v h, l, i, o, r, t))))
                        (either (id == 0x0e) _ _
                          (then_set (int value) _ (
                            then_checked (λ v. ltb v 2) limit_below
                              (λ v. record p { active_connection_id_limit = v })
                              (λ v h. (e, d, ground arith, i, o, r, t))))
                          (either (id == 0x0f) _ _
                            (then_cid value
                              (λ c. record p { initial_source_connection_id = some c })
                              (λ h. (e, d, l, h, o, r, t)))
                            (either (id == 0x00) _ _
                              (then_cid value
                                (λ c. record p { original_destination_connection_id = some c })
                                (λ h. (e, d, l, i, h, r, t)))
                              (either (id == 0x10) _ _
                                (then_cid value
                                  (λ c. record p { retry_source_connection_id = some c })
                                  (λ h. (e, d, l, i, o, h, t)))
                                (either (id == 0x02) _ _
                                  (if_elim Passes (length value == 16)
                                    (λ h. (e, d, l, i, o, r, ground arith)) (λ h. tt))
                                  a))))))))))))))
  where
    below : (v : ℕ) → not (ltb v (2 ^ 14)) ≡ false → v < 2 ^ 14
    below v h = ground arith

PassesTurn : Outcome (Params × List ℕ) → Type 0
PassesTurn (err e) = Unit
PassesTurn (ok (p, rest)) = IsAllowed p

turn-PassesTurn : (p : Params) (buf : List ℕ) → IsAllowed p → PassesTurn (turn p buf)
unfolding turn PassesTurn Passes
turn-PassesTurn p buf a = on_id (take_varint truncated_id buf)
  where
    on_set :
        (rest : List ℕ) (r : Outcome Params) → Passes r → PassesTurn (r >>= λ out. ok (out, rest))
    on_set rest (err e) v = tt
    on_set rest (ok q) v = v

    on_value :
        (id : ℕ) (r : Outcome (List ℕ × List ℕ))
        → PassesTurn (r >>= λ (value, rest). set_param p id value >>= λ out. ok (out, rest))
    on_value id (err e) = tt
    on_value id (ok (value, rest)) =
        on_set rest (set_param p id value) (set_param-Passes p id value a)

    on_length :
        (id : ℕ) (r : Outcome (ℕ × List ℕ))
        → PassesTurn (
            r >>= λ (len, buf).
            take_value len buf >>= λ (value, rest). set_param p id value >>= λ out. ok (out, rest))
    on_length id (err e) = tt
    on_length id (ok (len, buf)) = on_value id (take_value len buf)

    on_id :
        (r : Outcome (ℕ × List ℕ))
        → PassesTurn (
            r >>= λ (id, buf). take_varint truncated_length buf >>= λ (len, buf).
            take_value len buf >>= λ (value, rest). set_param p id value >>= λ out. ok (out, rest))
    on_id (err e) = tt
    on_id (ok (id, buf)) = on_length id (take_varint truncated_length buf)

decode_fuel-Passes :
    (fuel : ℕ) (p : Params) (buf : List ℕ) → IsAllowed p → Passes (decode_fuel fuel p buf)
unfolding decode_fuel Passes PassesTurn
decode_fuel-Passes zero p buf a = tt
decode_fuel-Passes (suc fuel) p [] a = a
decode_fuel-Passes (suc fuel) p (b ∷ buf) a =
    go (decode_fuel-Passes fuel) (turn p (b ∷ buf)) (turn-PassesTurn p (b ∷ buf) a)
  where
    go :
        ((p : Params) (buf : List ℕ) → IsAllowed p → Passes (decode_fuel fuel p buf))
        → (r : Outcome (Params × List ℕ)) → PassesTurn r
        → Passes (on_turn (decode_fuel fuel) r)
    go ih (err e) v = tt
    go ih (ok (q, rest)) v = ih q rest v

-- Whatever the peer sends, parameters that are accepted are within the limits: the exponent is at most
-- 20, the delay below 2^14 ms, the number of connection IDs at least 2, every connection ID at most 20
-- bytes and the reset token 16.
pub decode_params-IsAllowed : (buf : List ℕ) (p : Params) → decode_params buf ≡ ok p → IsAllowed p
unfolding Passes
decode_params-IsAllowed buf p h = rw h at (
    decode_fuel-Passes (suc (length buf)) default_params buf
      (omega arith, omega arith, omega arith, tt, tt, tt, tt))
