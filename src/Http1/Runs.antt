-- ===== src/Http1/Runs.antt =====
-- Responses as servers send them, run through the scanner of src/http1/parse.rs.
use shb.Common.{
  ℕ, ◌+◌, ◌≡◌, refl, true, false, List, [], ◌∷◌, ◌++◌, map, take, drop, arith, bytes_of,
}
use shb.Http1.Bytes.{
  Result, ok, err, ◌>>=◌, next_line, trim_ows, ci_eq, ci_prefix, conflicting_length,
}
use shb.Http1.Numbers.{parse_status, add_digits, parse_u64, parse_chunk_size}
use shb.Http1.Head.{chunk_size, status_line, header_line, codings, final_coding}
use shb.Http1.Scan.{
  State, head, in_body, on_head, head_line, size_line, chunk_turn, exact_turn, turn_in,
  terminator_ok, run, run_fuel,
}
use shb.Http1.Feed.{Parser, new, new_scanner, set_head_request, feed}
use shb.Http1.Turns.{Ends, run-Ends}
use shb.Http1.Pieces.{feed_all, joined, feed_all-joined}
use shb.Http1.Waiting.{created, asked, Reachable-IsWaiting}
use shb.Http1.Split.{IsWaiting}
use shb.Http1.Bodies.{SentChunk, run-chunked}
use shb.Http1.Digits.{nil, digit_then, parse_u64-place_value}

abbrev done : Result (Parser × ℕ) → Result (ℕ × State)
done r = r >>= λ (p, n). ok (n, p.scanner.state)

abbrev with_length : List ℕ
with_length = bytes_of "HTTP/1.1 200 OK\r\nContent-Length: 3\r\n\r\nabc"

abbrev chunked : List ℕ
chunked =
    bytes_of
      "HTTP/1.1 200 OK\r\nTransfer-Encoding: chunked\r\n\r\n3;x=1\r\nabc\r\n0\r\nA: b\r\n\r\n"

abbrev conflicting : List ℕ
conflicting = bytes_of "HTTP/1.1 200 OK\r\nContent-Length: 3\r\nContent-Length: 4\r\n\r\n"

with_length_run : done (feed new (with_length ++ with_length)) ≡ ok (2, head)
unfolding feed run run_fuel turn_in head_line status_line header_line on_head exact_turn next_line
    parse_status parse_u64 add_digits trim_ows ci_eq ci_prefix
with_length_run = refl

chunked_run : done (feed_all new (chunked ∷ with_length ∷ [])) ≡ ok (2, head)
unfolding feed run run_fuel turn_in head_line status_line header_line on_head exact_turn next_line
    parse_status parse_u64 add_digits trim_ows ci_eq ci_prefix codings final_coding size_line
    chunk_turn terminator_ok parse_chunk_size
chunked_run = refl

conflicting_run : done (feed new conflicting) ≡ err conflicting_length
unfolding feed run run_fuel turn_in head_line status_line header_line on_head exact_turn next_line
    parse_status parse_u64 add_digits trim_ows ci_eq ci_prefix
conflicting_run = refl

-- The same bytes one at a time.
by_bytes : done (feed_all new (map (λ (c : ℕ). c ∷ []) chunked)) ≡ ok (1, head)
unfolding feed run run_fuel turn_in head_line status_line header_line on_head exact_turn next_line
    parse_status parse_u64 add_digits trim_ows ci_eq ci_prefix codings final_coding size_line
    chunk_turn terminator_ok parse_chunk_size
by_bytes = refl

run-Ends_example : Ends (new_scanner false) with_length (run (new_scanner false) with_length)
run-Ends_example = run-Ends (new_scanner false) with_length

Reachable-IsWaiting_example : IsWaiting (set_head_request new true)
Reachable-IsWaiting_example = Reachable-IsWaiting (asked true created)

feed_all-joined_example :
    feed_all new (take 20 chunked ∷ drop 20 chunked ∷ [])
    ≡ feed new (joined (take 20 chunked ∷ drop 20 chunked ∷ []))
feed_all-joined_example =
    feed_all-joined new (take 20 chunked ∷ drop 20 chunked ∷ []) (Reachable-IsWaiting created)

abbrev abc : SentChunk
abc = record { line = bytes_of "3;x=1\r"; bytes = bytes_of "abc" }

run-chunked_example :
    run
      (record (new_scanner false) { state = in_body chunk_size })
      (bytes_of "3;x=1\r\nabc\r\n0\r\nA: b\r\n\r\n")
    ≡ (run (record (new_scanner false) { state = head }) [] >>= λ (s, rest, n). ok (s, rest, 1 + n))
unfolding parse_chunk_size trim_ows add_digits
run-chunked_example =
    run-chunked (new_scanner false) (abc ∷ []) (bytes_of "0\r") (bytes_of "A: b\r" ∷ []) []
      ((refl, refl, omega arith, omega arith), tt) refl refl ((refl, λ e. absurd (cc)), tt)

parse_u64-place_value_example : parse_u64 (bytes_of "42") ≡ ok 42
parse_u64-place_value_example = parse_u64-place_value (digit_then refl (digit_then refl nil))
