-- ===== src/Http3/Answers.antt =====
-- A response as the other end frames it, read to its end.
use shb.Common.{
  ℕ, ◌^◌, ◌<◌, ◌≡◌, refl, sym, ap, ◌∙◌, false, List, [], ◌∷◌, ◌++◌, append_assoc, append-nil, some,
  ltb, length, arith, length-append,
}
use shb.Quic.Varint.{get_varint, put_varint}
use shb.Quic.Varint.RoundTrip.{encoding, put_varint-encoding, get-encoding}
use shb.Prefix.Strings.{take-length}
use shb.Http1.Scan.{is_informational}
use shb.Prefix
use shb.Qpack.{find_status}
use shb.Incremental.{moves, left, go_on}
use shb.Incremental.Split.{loop-turn}
use shb.Http3.{
  Reading, new_reader, frame_header, on_frame, frame_turn, read_turn, run_reader, out_of_turns, fed,
  keep_left, feed_reader, frame_headers, frame_data, put_data, request_bytes,
}
use shb.Http3.Frames.{read_turn-Nearer, idle_turn, skipped_turn}

frame_header-encoding :
    (kind len : ℕ) (rest : List ℕ)
    → kind < 2 ^ 62
    → len < 2 ^ 62
    → frame_header (encoding kind ++ (encoding len ++ rest)) ≡ some (kind, len, rest)
unfolding frame_header
frame_header-encoding kind len rest h k =
    let a = get-encoding kind (encoding len ++ rest) h in
    let b = (take-length (encoding kind) (encoding len ++ rest)).1 in
    let c = get-encoding len rest k in
    let d = (take-length (encoding len) rest).1 in rw (a, b, c, d) refl

run_reader-turn : (s : Reading) (x : List ℕ) → run_reader s x ≡ go_on run_reader (read_turn s x)
run_reader-turn = loop-turn read_turn out_of_turns read_turn-Nearer

-- A frame of headers whose section gives a status that answers the request.
run_reader-headers :
    (s : Reading) (section rest : List ℕ) (status : ℕ)
    → s.skip ≡ 0
    → length section < 2 ^ 62
    → find_status section ≡ Prefix.ok (some status)
    → is_informational status ≡ false
    → run_reader s (encoding frame_headers ++ (encoding (length section) ++ (section ++ rest)))
      ≡ run_reader (record s { status = status }) rest
unfolding on_frame
run_reader-headers s section rest status idle h found final =
    let header =
      frame_header-encoding frame_headers (length section) (section ++ rest) (omega arith) h in
    let (front, back) = take-length section rest in
    let whole : ltb (length (section ++ rest)) (length section) ≡ false =
      ground (arith, length-append section rest) in
    let x = encoding frame_headers ++ (encoding (length section) ++ (section ++ rest)) in
    let once : frame_turn s x (frame_header x) ≡ moves (record s { status = status }) rest =
      rw (header, whole, front, back, found, final) refl in
    run_reader-turn s x ∙ ap (go_on run_reader) (idle_turn s x idle ∙ once)

run_reader-skip :
    (s : Reading) (body rest : List ℕ)
    → s.skip ≡ 0
    → run_reader (record s { skip = length body }) (body ++ rest) ≡ run_reader s rest
run_reader-skip s body rest idle =
    let r : Reading = record s { skip = length body } in
    let z : Reading = record s { skip = 0 } in
    let same : z ≡ s = ap (λ (n : ℕ). record s { skip = n }) (sym idle) in
    let back = (take-length body rest).1 in
    let turn = skipped_turn r (body ++ rest) (omega (arith, length-append body rest)) in
    run_reader-turn r (body ++ rest)
    ∙ (ap (go_on run_reader) (turn ∙ ap (read_turn z) back)
        ∙ (sym (run_reader-turn z rest) ∙ ap (λ (t : Reading). run_reader t rest) same))

-- A frame of data is stepped over.
run_reader-data :
    (s : Reading) (body rest : List ℕ)
    → s.skip ≡ 0
    → length body < 2 ^ 62
    → run_reader s (encoding frame_data ++ (encoding (length body) ++ (body ++ rest)))
      ≡ run_reader s rest
unfolding on_frame
run_reader-data s body rest idle h =
    let header = frame_header-encoding frame_data (length body) (body ++ rest) (omega arith) h in
    let x = encoding frame_data ++ (encoding (length body) ++ (body ++ rest)) in
    let once : frame_turn s x (frame_header x)
        ≡ moves (record s { skip = length body }) (body ++ rest) =
      rw header refl in
    run_reader-turn s x
    ∙ (ap (go_on run_reader) (idle_turn s x idle ∙ once) ∙ run_reader-skip s body rest idle)

run_reader-nil : (s : Reading) → s.skip ≡ 0 → run_reader s [] ≡ left s []
unfolding frame_header get_varint
run_reader-nil s idle = run_reader-turn s [] ∙ ap (go_on run_reader) (idle_turn s [] idle)

request_bytes-encoding :
    (section body : List ℕ)
    → length section < 2 ^ 62
    → request_bytes section body
      ≡ put_data (encoding frame_headers ++ (encoding (length section) ++ section)) body
unfolding request_bytes
request_bytes-encoding section body h =
    let kind = put_varint-encoding [] frame_headers (omega arith) in
    let size = put_varint-encoding (encoding frame_headers) (length section) h in
    ap (λ (x : List ℕ). put_data (put_varint x (length section) ++ section) body) kind
    ∙ (ap (λ (x : List ℕ). put_data (x ++ section) body) size
        ∙ ap (λ (x : List ℕ). put_data x body)
            (append_assoc (encoding frame_headers) (encoding (length section)) section))

put_data-run :
    (s : Reading) (front body : List ℕ) (status : ℕ)
    → s.skip ≡ 0
    → length body < 2 ^ 62
    → ((rest : List ℕ)
        → run_reader s (front ++ rest) ≡ run_reader (record s { status = status }) rest)
    → run_reader s (put_data front body) ≡ left (record s { status = status }) []
put_data-run s front [] status idle h k =
    ap (run_reader s) (sym (append-nil front))
    ∙ (k [] ∙ run_reader-nil (record s { status = status }) idle)
put_data-run s front (b ∷ bs) status idle h k =
    let body = b ∷ bs in
    let kind = put_varint-encoding front frame_data (omega arith) in
    let size = put_varint-encoding (front ++ encoding frame_data) (length body) h in
    let shape : put_data front body
        ≡ front ++ (encoding frame_data ++ (encoding (length body) ++ (body ++ []))) =
      ap (λ (x : List ℕ). put_varint x (length body) ++ body) kind
      ∙ (ap (λ (x : List ℕ). x ++ body) size
          ∙ (append_assoc (front ++ encoding frame_data) (encoding (length body)) body
              ∙ (append_assoc front (encoding frame_data) (encoding (length body) ++ body)
                  ∙ ap
                      (λ (x : List ℕ).
                        front ++ (encoding frame_data ++ (encoding (length body) ++ x)))
                      (sym (append-nil body))))) in
    ap (run_reader s) shape
    ∙ (k _
        ∙ (run_reader-data (record s { status = status }) body [] idle h
            ∙ run_reader-nil (record s { status = status }) idle))

-- A message framed as `request_bytes` frames one, whose section gives a status that is not
-- informational and whose parts have fewer than 2^62 bytes, is read to its end: the reader has that
-- status, and keeps no byte.
pub feed_reader-request_bytes :
    (section body : List ℕ) (status : ℕ)
    → length section < 2 ^ 62
    → length body < 2 ^ 62
    → find_status section ≡ Prefix.ok (some status)
    → is_informational status ≡ false
    → feed_reader new_reader (request_bytes section body)
      ≡ fed (record { pending = []; reading = record { skip = 0; status = status } })
feed_reader-request_bytes section body status h k found final =
    let s : Reading = record { skip = 0; status = 0 } in
    let front = encoding frame_headers ++ (encoding (length section) ++ section) in
    ap (λ (x : List ℕ). keep_left (run_reader s x)) (request_bytes-encoding section body h)
    ∙ ap keep_left (
        put_data-run s front body status refl k (λ rest.
          ap (run_reader s) (
            append_assoc (encoding frame_headers) (encoding (length section) ++ section) rest
            ∙ ap (λ (x : List ℕ). encoding frame_headers ++ x)
                (append_assoc (encoding (length section)) section rest))
          ∙ run_reader-headers s section rest status refl h found final))
