-- ===== src/Http1/Feed.antt =====
-- src/http1/parse.rs: `Parser` and its methods.
use shb.Common.{ℕ, ◌+◌, Bool, true, false, List, [], ◌∷◌, ◌++◌, Option, none, some}
use shb.Http1.Bytes.{Result, ok, ◌>>=◌, next_line}
use shb.Http1.Head.{exact, chunk_size, chunk, trailers, eof}
use shb.Http1.Scan.{State, head, in_body, Scanner, Outcome, run}

pub record Parser : Type 0 where
  pub pending : List ℕ
  pub scanner : Scanner

abbrev pub new_scanner : Bool → Scanner
new_scanner head_request = record {
  state = head;
  partial_head = none;
  status = 0;
  keep_alive = true;
  head_request = head_request;
}

-- `Parser::new`.
abbrev pub new : Parser
new = record { pending = []; scanner = new_scanner false }

abbrev pub reset : Parser → Parser
reset p = record { pending = []; scanner = new_scanner p.scanner.head_request }

abbrev pub set_head_request : Parser → Bool → Parser
set_head_request p on = record p { scanner = record p.scanner { head_request = on } }

-- The fast path: the buffer in place, what is left of it kept.
abbrev pub keep_rest : Outcome → Result (Parser × ℕ)
keep_rest r = r >>= λ (s, rest, done). ok (record { pending = rest; scanner = s }, done)

abbrev pub plus : ℕ → Result (Parser × ℕ) → Result (Parser × ℕ)
plus n r = r >>= λ (p, done). ok (p, n + done)

-- The line that `pending` begins, up to its newline, and then the rest in place. What `run` leaves of
-- the line is not kept.
abbrev pub after_line : Outcome → List ℕ → Result (Parser × ℕ)
after_line r rest = r >>= λ (s, left, done). plus done (keep_rest (run s rest))

abbrev pub feed_pending : Parser → List ℕ → Option (List ℕ × List ℕ) → Result (Parser × ℕ)
feed_pending p received none = ok (record p { pending = p.pending ++ received }, 0)
feed_pending p received (some (line, rest)) =
    after_line (run p.scanner (p.pending ++ (line ++ (b'\n' ∷ [])))) rest

abbrev pub feed_by : Parser → List ℕ → List ℕ → Result (Parser × ℕ)
feed_by p [] received = keep_rest (run p.scanner received)
feed_by p (c ∷ cs) received = feed_pending p received (next_line received)

unfoldable pub feed : Parser → List ℕ → Result (Parser × ℕ)
feed p received = feed_by p p.pending received

abbrev pub end_state : Scanner → State → Scanner × Bool
end_state s head = (s, false)
end_state s (in_body eof) = (record s { state = head; keep_alive = false }, true)
end_state s (in_body (exact n)) = (s, false)
end_state s (in_body chunk_size) = (s, false)
end_state s (in_body (chunk n)) = (s, false)
end_state s (in_body trailers) = (s, false)

unfoldable pub mark_eof : Parser → Parser × Bool
mark_eof p = let (s, done) = end_state p.scanner p.scanner.state in (record p { scanner = s }, done)
