-- ===== src/Http1/Scan.antt =====
-- src/http1/parse.rs: `Parser::run`. The scanner is the parser without its pending bytes, which
-- `run` neither reads nor writes. A buffer with a position is what is left of the buffer. The loop of
-- `scan_head` is turns of the loop of `run`: it hands back control with a complete head, or where no
-- line is left, and there `run` returns too.
use shb.Common.{
  bytes_eq, ℕ, zero, suc, ◌+◌, ◌-◌, ◌&&◌, ◌||◌, Bool, true, false, not, List, [], ◌∷◌, Option, none,
  some, ltb, leb, ◌==◌, if◌then◌else◌, length, take, drop, min, u64_mod,
}
use shb.Http1.Bytes.{
  Result, ok, err, ◌>>=◌, trim_cr, next_line, switching_protocols, chunk_size_overflow,
  chunk_terminator, out_of_fuel,
}
use shb.Http1.Numbers.{parse_chunk_size}
use shb.Http1.Head.{
  Body, exact, chunk_size, chunk, trailers, eof, HeadFields, ResponseHead, status_line, header_line,
  complete,
}

pub data State : Type 0 where
  head : State
  in_body : Body → State

pub record Scanner : Type 0 where
  pub state : State
  pub partial_head : Option HeadFields
  pub status : ℕ
  pub keep_alive : Bool
  pub head_request : Bool

-- One turn of the loop: on to the next with what is left and the responses completed, or return.
pub data Turn : Type 0 where
  more : Scanner → List ℕ → ℕ → Turn
  stop : Scanner → List ℕ → Turn

-- `crate::is_informational`.
abbrev pub is_informational : ℕ → Bool
is_informational status = leb 100 status && ltb status 200

abbrev pub no_body_status : ℕ → Bool
no_body_status status = status == 204 || status == 304

abbrev pub is_eof : Body → Bool
is_eof eof = true
is_eof (exact n) = false
is_eof chunk_size = false
is_eof (chunk n) = false
is_eof trailers = false

abbrev pub body_read : Bool → ResponseHead → Body
body_read head_request r = if head_request || no_body_status r.status then exact 0 else r.body

-- What `run` does with a complete head.
unfoldable pub on_head : Scanner → ResponseHead → Result Scanner
on_head s r =
    if is_informational r.status
    then (if r.status == 101
        then err switching_protocols
        else ok (record s { state = head; partial_head = none }))
    else ok (record s {
      state = in_body (body_read s.head_request r);
      partial_head = none;
      status = r.status;
      keep_alive = r.keep_alive && not (is_eof (body_read s.head_request r));
    })

-- A complete header line: the empty one ends the head.
abbrev pub on_header : Scanner → HeadFields → List ℕ → Result Scanner
on_header s h [] = on_head s (complete h)
on_header s h (c ∷ cs) = header_line h (c ∷ cs) >>= λ h'. ok (record s { partial_head = some h' })

-- A complete line of the head, the newline taken off.
unfoldable pub head_line : Scanner → Option HeadFields → List ℕ → Result Scanner
head_line s none line = status_line line >>= λ h. ok (record s { partial_head = some h })
head_line s (some h) line = on_header s h (trim_cr line)

-- The state behind a chunk-size line.
unfoldable pub size_line : Scanner → List ℕ → Result Scanner
size_line s line = parse_chunk_size (trim_cr line) >>= λ size.
    if size == 0
    then ok (record s { state = in_body trailers })
    else if ltb (size + 2) u64_mod
    then ok (record s { state = in_body (chunk (size + 2)) })
    else err chunk_size_overflow

-- A trailer line, and whether it ends the response.
abbrev pub trailer_line : Scanner → List ℕ → Scanner × ℕ
trailer_line s [] = (record s { state = head }, 1)
trailer_line s (c ∷ cs) = (s, 0)

-- The last `n` of some bytes.
abbrev pub last_bytes : ℕ → List ℕ → List ℕ
last_bytes n xs = drop (length xs - n) xs

abbrev pub crlf : List ℕ
crlf = b'\r' ∷ b'\n' ∷ []

-- `taken` are the bytes of the chunk in this receive, `left` is how many are to come: the bytes of
-- the terminator among them are those that they ought to be.
unfoldable pub terminator_ok : List ℕ → ℕ → Bool
terminator_ok taken left =
    if ltb left 2 && ltb 0 (length taken)
    then bytes_eq (last_bytes (min (length taken) (2 - left)) taken)
        (last_bytes (min (length taken) (2 - left)) (take (2 - left) crlf))
    else true

unfoldable pub chunk_turn : Scanner → ℕ → List ℕ → Result Turn
chunk_turn s n buf =
    if not (terminator_ok (take n buf) (n - length (take n buf)))
    then err chunk_terminator
    else if ltb (length (take n buf)) n
    then ok (stop (record s { state = in_body (chunk (n - length (take n buf))) }) (drop n buf))
    else ok (more (record s { state = in_body chunk_size }) (drop n buf) 0)

unfoldable pub exact_turn : Scanner → ℕ → List ℕ → Turn
exact_turn s n buf =
    if n == 0
    then more (record s { state = head }) buf 1
    else if length (take n buf) == length buf && ltb (length (take n buf)) n
    then stop (record s { state = in_body (exact (n - length (take n buf))) }) (drop n buf)
    else more (record s { state = in_body (exact (n - length (take n buf))) }) (drop n buf) 0

-- A turn that reads a line, or returns where there is none.
abbrev pub line_turn :
    Scanner → List ℕ → (List ℕ → Result (Scanner × ℕ)) → Option (List ℕ × List ℕ) → Result Turn
line_turn s buf on_line none = ok (stop s buf)
line_turn s buf on_line (some (line, rest)) = on_line line >>= λ next. ok (more next.0 rest next.1)

abbrev pub counted : Result Scanner → Result (Scanner × ℕ)
counted r = r >>= λ s. ok (s, 0)

unfoldable pub turn_in : State → Scanner → List ℕ → Result Turn
turn_in head s buf =
    line_turn s buf (λ line. counted (head_line s s.partial_head line)) (next_line buf)
turn_in (in_body (exact n)) s buf = ok (exact_turn s n buf)
turn_in (in_body chunk_size) s buf =
    line_turn s buf (λ line. counted (size_line s line)) (next_line buf)
turn_in (in_body (chunk n)) s buf = chunk_turn s n buf
turn_in (in_body trailers) s buf =
    line_turn s buf (λ line. ok (trailer_line s (trim_cr line))) (next_line buf)
turn_in (in_body eof) s buf = ok (stop s [])

abbrev pub turn : Scanner → List ℕ → Result Turn
turn s buf = turn_in s.state s buf

-- The scanner, what is left of the buffer, and how many responses were completed.
abbrev pub Outcome : Type 0
Outcome = Result (Scanner × List ℕ × ℕ)

abbrev pub add_done : ℕ → Outcome → Outcome
add_done n r = r >>= λ (s, rest, done). ok (s, rest, n + done)

-- What the loop does with a turn.
abbrev pub continue : (Scanner → List ℕ → Outcome) → Result Turn → Outcome
continue go (err e) = err e
continue go (ok (stop s rest)) = ok (s, rest, 0)
continue go (ok (more s rest n)) = add_done n (go s rest)

unfoldable pub run_fuel : ℕ → Scanner → List ℕ → Outcome
run_fuel zero s buf = err out_of_fuel
run_fuel (suc fuel) s buf = continue (run_fuel fuel) (turn s buf)

-- Two turns for a byte, and one more where a body of no bytes is left to be seen.
abbrev pub enough : List ℕ → ℕ
enough buf = length buf + length buf + 2

unfoldable pub run : Scanner → List ℕ → Outcome
run s buf = run_fuel (enough buf) s buf
