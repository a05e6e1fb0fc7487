-- ===== src/Quic/Frame/AckRoundTrip.antt =====
-- An ACK frame carries the ranges that it was given.
use shb.Common.{
  ℕ, zero, suc, ◌-◌, ◌^◌, ◌<◌, ◌≤◌, ◌≡◌, refl, ap, ◌∙◌, true, List, [], ◌∷◌, ◌++◌, none, some,
  length, append_assoc, append-nil, length-append, take-append_length, drop-append_length, sub_u64,
  add_u64, checked_sub, arith,
}
use shb.Quic.Ranges.{Range, Descends}
use shb.Quic.Varint.{get_varint, put_varint}
use shb.Quic.Frame.{ok, skip_pairs, next_frame, frame_body, ack}
use shb.Quic.Frame.Encode.{put_ranges, put_ack}
use shb.Quic.Frame.AckRanges.{AckRanges, new, next, collect_fuel, collect}
use shb.Quic.Frame.Cursor.{bytes, put_varint-bytes, varint-bytes, get_varint-bytes, bytes_nonempty}
use shb.Quic.Frame.RoundTrip.{next_frame-kind}

-- The gap and length pairs behind the first range.
pub pairs : ℕ → List Range → List ℕ
pairs prev [] = []
pairs prev ((lo, hi) ∷ rs) = bytes (prev - hi - 2) ++ (bytes (hi - lo) ++ pairs lo rs)

put_ranges-pairs :
    (out : List ℕ) (prev : ℕ) (rs : List Range)
    → prev ≤ 2 ^ 62
    → Descends prev rs
    → put_ranges out prev rs ≡ out ++ pairs prev rs
unfolding put_ranges pairs
put_ranges-pairs out prev [] h d = rw append-nil
put_ranges-pairs out prev ((lo, hi) ∷ rs) h d =
    let gap : sub_u64 (sub_u64 prev hi) 2 ≡ prev - hi - 2 = omega arith in
    let len : sub_u64 hi lo ≡ hi - lo = omega arith in
    rw (gap, len)
      (put_ranges-pairs (put_varint (put_varint out (prev - hi - 2)) (hi - lo)) lo rs (omega arith)
          d.2
        ∙ simp (put_varint-bytes, append_assoc))

skip_pairs-pairs :
    (prev : ℕ) (rs : List Range) (rest : List ℕ)
    → prev ≤ 2 ^ 62
    → Descends prev rs
    → skip_pairs (length rs) (pairs prev rs ++ rest) ≡ ok rest
unfolding skip_pairs pairs
skip_pairs-pairs prev [] rest h d = refl
skip_pairs-pairs prev ((lo, hi) ∷ rs) rest h d = simp append_assoc (
    rw
      (
        varint-bytes (prev - hi - 2) (omega arith) (bytes (hi - lo) ++ (pairs lo rs ++ rest)),
        varint-bytes (hi - lo) (omega arith) (pairs lo rs ++ rest),
      )
      (skip_pairs-pairs lo rs rest (omega arith) d.2))

-- Where the walk stands once the first range is out.
abbrev behind : ℕ → ℕ → ℕ → List ℕ → AckRanges
behind largest first_range prev bs = record {
  largest = largest;
  first_range = first_range;
  ranges = bs;
  done_first = true;
  next_largest = prev;
}

next-pairs :
    (largest first_range prev lo hi : ℕ) (rs : List Range)
    → prev ≤ 2 ^ 62
    → Descends prev ((lo, hi) ∷ rs)
    → next (behind largest first_range prev (pairs prev ((lo, hi) ∷ rs)))
      ≡ some ((lo, hi), behind largest first_range lo (pairs lo rs))
unfolding next pairs
next-pairs largest first_range prev lo hi rs h d =
    let gap : add_u64 (prev - hi - 2) 2 ≡ prev - hi = omega arith in
    let top : checked_sub prev (prev - hi) ≡ some hi = ground arith in
    let low : checked_sub hi (hi - lo) ≡ some lo = ground arith in
    rw (
      get_varint-bytes (prev - hi - 2) (omega arith) (bytes (hi - lo) ++ pairs lo rs),
      drop-append_length (bytes (prev - hi - 2)) (bytes (hi - lo) ++ pairs lo rs),
      get_varint-bytes (hi - lo) (omega arith) (pairs lo rs),
      drop-append_length (bytes (hi - lo)) (pairs lo rs),
      gap,
      top,
      low,
    )

next-end : (largest first_range prev : ℕ) → next (behind largest first_range prev []) ≡ none
unfolding next get_varint
next-end largest first_range prev = refl

collect-pairs :
    (fuel largest first_range prev : ℕ) (rs : List Range)
    → prev ≤ 2 ^ 62
    → Descends prev rs
    → length rs < fuel
    → collect_fuel fuel (behind largest first_range prev (pairs prev rs)) ≡ rs
unfolding collect_fuel
collect-pairs zero largest first_range prev rs h d f = absurd (omega arith)
collect-pairs (suc fuel) largest first_range prev [] h d f =
    unfold pairs in rw (next-end largest first_range prev, collect_fuel)
collect-pairs (suc fuel) largest first_range prev ((lo, hi) ∷ rs) h d f =
    rw (next-pairs largest first_range prev lo hi rs h d, collect_fuel)
      (ap (λ t. (lo, hi) ∷ t)
        (collect-pairs fuel largest first_range lo rs (omega arith) d.2 (omega arith)))

length-pairs : (prev : ℕ) (rs : List Range) → length rs ≤ length (pairs prev rs)
unfolding pairs
length-pairs prev [] = omega arith
length-pairs prev ((lo, hi) ∷ rs) = omega (
  arith,
  length-append (bytes (prev - hi - 2)) (bytes (hi - lo) ++ pairs lo rs),
  length-append (bytes (hi - lo)) (pairs lo rs),
  bytes_nonempty (prev - hi - 2),
  length-pairs lo rs,
)

next-first :
    (lo hi : ℕ) (bs : List ℕ)
    → lo ≤ hi
    → hi < 2 ^ 62
    → next (new hi (hi - lo) bs) ≡ some ((lo, hi), behind hi (hi - lo) lo bs)
unfolding next
next-first lo hi bs l h = ground arith

-- The walk over what `put_ack` wrote gives the ranges back.
pub collect-ranges :
    (lo hi : ℕ) (rs : List Range)
    → hi < 2 ^ 62
    → lo ≤ hi
    → Descends lo rs
    → collect (new hi (hi - lo) (pairs lo rs)) ≡ (lo, hi) ∷ rs
unfolding collect collect_fuel
collect-ranges lo hi rs h l d =
    rw (next-first lo hi (pairs lo rs) l h, collect_fuel)
      (ap (λ t. (lo, hi) ∷ t)
        (collect-pairs (suc (length (pairs lo rs))) hi (hi - lo) lo rs (omega arith) d
          (omega (arith, length-pairs lo rs))))

-- The bytes of the frame, its type first.
abbrev ack_bytes : ℕ → ℕ → List Range → ℕ → List ℕ → List ℕ
ack_bytes lo hi rs delay rest =
    bytes 0x02
    ++ (bytes hi
        ++ (bytes delay ++ (bytes (length rs) ++ (bytes (hi - lo) ++ (pairs lo rs ++ rest)))))

put_ack-bytes :
    (lo hi : ℕ) (rs : List Range) (delay : ℕ)
    → hi < 2 ^ 62
    → lo ≤ hi
    → Descends lo rs
    → put_ack [] ((lo, hi) ∷ rs) delay ≡ some (ack_bytes lo hi rs delay [])
unfolding put_ack
put_ack-bytes lo hi rs delay h l d =
    let first : sub_u64 hi lo ≡ hi - lo = omega arith in
    rw (first, put_ranges-pairs _ lo rs (omega arith) d)
      (simp (put_varint-bytes, append_assoc, append-nil))

ack_frame-bytes :
    (lo hi : ℕ) (rs : List Range) (delay : ℕ) (rest : List ℕ)
    → hi < 2 ^ 62
    → delay < 2 ^ 62
    → length rs < 2 ^ 62
    → lo ≤ hi
    → Descends lo rs
    → next_frame (ack_bytes lo hi rs delay rest)
      ≡ ok (ack hi delay (hi - lo) (pairs lo rs) (length rs), rest)
ack_frame-bytes lo hi rs delay rest h hd hn l d =
    let taken : length (pairs lo rs ++ rest) - length rest ≡ length (pairs lo rs) =
      omega (arith, length-append (pairs lo rs) rest) in
    next_frame-kind 0x02 _ (omega arith)
    ∙ unfold frame_body in
      rw (
        varint-bytes hi h
            (bytes delay ++ (bytes (length rs) ++ (bytes (hi - lo) ++ (pairs lo rs ++ rest)))),
        varint-bytes delay hd (bytes (length rs) ++ (bytes (hi - lo) ++ (pairs lo rs ++ rest))),
        varint-bytes (length rs) hn (bytes (hi - lo) ++ (pairs lo rs ++ rest)),
        varint-bytes (hi - lo) (omega arith) (pairs lo rs ++ rest),
        skip_pairs-pairs lo rs rest (omega arith) d,
        taken,
        take-append_length (pairs lo rs) rest,
      )

-- `put_ack` on descending ranges with gaps, of numbers below 2 ^ 62, does not panic; the frame reads back, and the walk over
-- its ranges sees exactly the ranges that were written, in their order.
pub next_frame-put_ack :
    (lo hi : ℕ) (rs : List Range) (delay : ℕ) (rest : List ℕ)
    → hi < 2 ^ 62
    → delay < 2 ^ 62
    → length rs < 2 ^ 62
    → lo ≤ hi
    → Descends lo rs
    → (written raw : List ℕ) × (put_ack [] ((lo, hi) ∷ rs) delay ≡ some written)
      × (next_frame (written ++ rest) ≡ ok (ack hi delay (hi - lo) raw (length rs), rest))
      × (collect (new hi (hi - lo) raw) ≡ (lo, hi) ∷ rs)
next_frame-put_ack lo hi rs delay rest h hd hn l d = (
  ack_bytes lo hi rs delay [],
  pairs lo rs,
  put_ack-bytes lo hi rs delay h l d,
  simp (append_assoc, append-nil) (ack_frame-bytes lo hi rs delay rest h hd hn l d),
  collect-ranges lo hi rs h l d,
)
