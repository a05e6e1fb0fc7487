-- ===== src/Http1/Bodies.antt =====
-- src/http1/parse.rs: bodies as RFC 9112 frames them, read to their end.
use shb.Common.{
  ℕ, ◌+◌, ◌-◌, ◌<◌, ◌≡◌, refl, sym, ap, ◌∙◌, ◌&&◌, Bool, true, false, not, List, [], ◌∷◌, ◌++◌,
  some, ltb, ◌==◌, length, take, drop, min, arith, append_assoc, length-append, u64_mod, min,
}
use shb.Http1.Bytes.{ok, trim_cr, next_line}
use shb.Http1.Numbers.{parse_chunk_size}
use shb.Http1.Head.{exact, chunk_size, chunk, trailers}
use shb.Http1.Scan.{
  head, in_body, Scanner, Turn, more, turn, turn_in, chunk_turn, exact_turn, size_line,
  trailer_line, terminator_ok, crlf, add_done, continue, run,
}
use shb.Http1.Split.{add_done-zero}
use shb.Http1.Turns.{run-turn}

-- A line without a newline in it.
abbrev pub no_newline : List ℕ → Bool
no_newline [] = true
no_newline (c ∷ cs) = not (c == b'\n') && no_newline cs

next_line-found :
    (line rest : List ℕ)
    → no_newline line ≡ true
    → next_line (line ++ (b'\n' ∷ rest)) ≡ some (line, rest)
unfolding next_line
next_line-found [] rest h = refl
next_line-found (c ∷ line) rest h =
    let here : (c == b'\n') ≡ false = ground arith in
    let ih = next_line-found line rest (ground arith) in rw (here, ih) refl

-- A chunk as it is sent: the line with its size (an extension may follow it), and its bytes.
pub record SentChunk : Type 0 where
  pub line : List ℕ
  pub bytes : List ℕ

abbrev pub IsChunk : SentChunk → Type 0
IsChunk c =
    (no_newline c.line ≡ true)
    × (parse_chunk_size (trim_cr c.line) ≡ ok (length c.bytes))
    × (0 < length c.bytes)
    × (length c.bytes + 2 < u64_mod)

abbrev pub AllChunks : List SentChunk → Type 0
AllChunks [] = Unit
AllChunks (c ∷ cs) = IsChunk c × AllChunks cs

-- The bytes of the chunks, each behind its line and before its terminator.
abbrev pub sent : List SentChunk → List ℕ
sent [] = []
sent (c ∷ cs) = c.line ++ (b'\n' ∷ (c.bytes ++ (crlf ++ sent cs)))

take_exact :
    (xs ys : List ℕ) → (take (length xs) (xs ++ ys) ≡ xs) × (drop (length xs) (xs ++ ys) ≡ ys)
take_exact [] ys = (refl, refl)
take_exact (x ∷ xs) ys = let (a, b) = take_exact xs ys in (ap (λ (l : List ℕ). x ∷ l) a, b)

terminator-ok : (bytes : List ℕ) → terminator_ok (bytes ++ crlf) 0 ≡ true
unfolding terminator_ok
terminator-ok bytes =
    let long = length-append bytes crlf in
    let some_taken : ltb 0 (length (bytes ++ crlf)) ≡ true = ground arith in
    let two : min (length (bytes ++ crlf)) 2 ≡ 2 = omega arith in
    let at_two : length (bytes ++ crlf) - 2 ≡ length bytes = omega arith in
    let (a, b) = take_exact bytes crlf in rw (some_taken, two, at_two, b) refl

run-more :
    (s s' : Scanner) (x rest : List ℕ) (n : ℕ)
    → turn s x ≡ ok (more s' rest n)
    → run s x ≡ add_done n (run s' rest)
run-more s s' x rest n h = run-turn s x ∙ ap (continue run) h

run-on : (s s' : Scanner) (x rest : List ℕ) → turn s x ≡ ok (more s' rest 0) → run s x ≡ run s' rest
run-on s s' x rest h = run-more s s' x rest 0 h ∙ add_done-zero (run s' rest)

size_turn :
    (s : Scanner) (line rest : List ℕ) (n : ℕ)
    → no_newline line ≡ true
    → parse_chunk_size (trim_cr line) ≡ ok n
    → 0 < n
    → n + 2 < u64_mod
    → turn (record s { state = in_body chunk_size }) (line ++ (b'\n' ∷ rest))
      ≡ ok (more (record s { state = in_body (chunk (n + 2)) }) rest 0)
unfolding turn_in size_line
size_turn s line rest n one parsed some_bytes fits =
    let positive : (n == 0) ≡ false = ground arith in
    let fits' : ltb (n + 2) u64_mod ≡ true = ground arith in
    rw (next_line-found line rest one, parsed, positive, fits') refl

bytes_turn :
    (s : Scanner) (bytes rest : List ℕ)
    → turn (record s { state = in_body (chunk (length bytes + 2)) }) (bytes ++ (crlf ++ rest))
      ≡ ok (more (record s { state = in_body chunk_size }) rest 0)
unfolding turn_in chunk_turn
bytes_turn s bytes rest =
    let joined : bytes ++ (crlf ++ rest) ≡ (bytes ++ crlf) ++ rest =
      sym (append_assoc bytes crlf rest) in
    let (a, b) = take_exact (bytes ++ crlf) rest in
    let long : length bytes + 2 ≡ length (bytes ++ crlf) = sym (length-append bytes crlf) in
    let none_left : length (bytes ++ crlf) - length (bytes ++ crlf) ≡ 0 = omega arith in
    let all : ltb (length (bytes ++ crlf)) (length (bytes ++ crlf)) ≡ false = ground arith in
    rw (joined, long, a, b, none_left, terminator-ok bytes, all) refl

-- A chunk with its line and its terminator is read, and the next size line is looked for.
run-SentChunk :
    (s : Scanner) (c : SentChunk) (rest : List ℕ)
    → IsChunk c
    → run
        (record s { state = in_body chunk_size })
        (c.line ++ (b'\n' ∷ (c.bytes ++ (crlf ++ rest))))
      ≡ run (record s { state = in_body chunk_size }) rest
run-SentChunk s c rest (one, parsed, some_bytes, fits) =
    run-on _ _ _ _
      (size_turn s c.line (c.bytes ++ (crlf ++ rest)) (length c.bytes) one parsed some_bytes fits)
    ∙ run-on _ _ _ _ (bytes_turn s c.bytes rest)

run-sent :
    (s : Scanner) (cs : List SentChunk) (rest : List ℕ)
    → AllChunks cs
    → run (record s { state = in_body chunk_size }) (sent cs ++ rest)
      ≡ run (record s { state = in_body chunk_size }) rest
run-sent s [] rest h = refl
run-sent s (c ∷ cs) rest (h, hs) =
    ap (λ (x : List ℕ). run (record s { state = in_body chunk_size }) x) (reorder c (sent cs))
    ∙ (run-SentChunk s c (sent cs ++ rest) h ∙ run-sent s cs rest hs)
  where
    reorder :
        (c : SentChunk) (tail : List ℕ)
        → (c.line ++ (b'\n' ∷ (c.bytes ++ (crlf ++ tail)))) ++ rest
          ≡ c.line ++ (b'\n' ∷ (c.bytes ++ (crlf ++ (tail ++ rest))))
    reorder c tail =
        append_assoc c.line (b'\n' ∷ (c.bytes ++ (crlf ++ tail))) rest
        ∙ ap (λ (x : List ℕ). c.line ++ (b'\n' ∷ x)) (append_assoc c.bytes (crlf ++ tail) rest)

-- The trailer lines, each with its newline.
abbrev pub trailer_lines : List (List ℕ) → List ℕ
trailer_lines [] = []
trailer_lines (t ∷ ts) = t ++ (b'\n' ∷ trailer_lines ts)

-- A trailer field: a line of its own that is not the empty one.
abbrev pub IsField : List ℕ → Type 0
IsField t = (no_newline t ≡ true) × (¬ (trim_cr t ≡ []))

abbrev pub AllFields : List (List ℕ) → Type 0
AllFields [] = Unit
AllFields (t ∷ ts) = IsField t × AllFields ts

field_turn :
    (s : Scanner) (t rest : List ℕ)
    → no_newline t ≡ true
    → ¬ (trim_cr t ≡ [])
    → turn (record s { state = in_body trailers }) (t ++ (b'\n' ∷ rest))
      ≡ ok (more (record s { state = in_body trailers }) rest 0)
unfolding turn_in
field_turn s t rest one field = rw (next_line-found t rest one) (go (trim_cr t) field)
  where
    go :
        (line : List ℕ)
        → ¬ (line ≡ [])
        → ok (
            more
              (trailer_line (record s { state = in_body trailers }) line).0
              rest
              (trailer_line (record s { state = in_body trailers }) line).1)
          ≡ ok (more (record s { state = in_body trailers }) rest 0)
    go [] h = absurd (h refl)
    go (c ∷ cs) h = refl

run-trailers :
    (s : Scanner) (ts : List (List ℕ)) (rest : List ℕ)
    → AllFields ts
    → run (record s { state = in_body trailers }) (trailer_lines ts ++ (crlf ++ rest))
      ≡ add_done 1 (run (record s { state = head }) rest)
unfolding turn_in
run-trailers s [] rest h =
    let last = next_line-found (b'\r' ∷ []) rest refl in
    run-more (record s { state = in_body trailers }) (record s { state = head }) (crlf ++ rest) rest
      1 (rw last refl)
run-trailers s (t ∷ ts) rest ((one, field), hs) =
    ap (λ (x : List ℕ). run (record s { state = in_body trailers }) x)
      (append_assoc t (b'\n' ∷ trailer_lines ts) (crlf ++ rest))
    ∙ (run-on (record s { state = in_body trailers }) (record s { state = in_body trailers }) _ _
          (field_turn s t (trailer_lines ts ++ (crlf ++ rest)) one field)
        ∙ run-trailers s ts rest hs)

last_turn :
    (s : Scanner) (line rest : List ℕ)
    → no_newline line ≡ true
    → parse_chunk_size (trim_cr line) ≡ ok 0
    → turn (record s { state = in_body chunk_size }) (line ++ (b'\n' ∷ rest))
      ≡ ok (more (record s { state = in_body trailers }) rest 0)
unfolding turn_in size_line
last_turn s line rest one parsed = rw (next_line-found line rest one, parsed) refl

-- Where the size line of each chunk gives the number of its bytes, at least one and less than
-- 2^64 - 2, the last line gives zero and no trailer line is empty, a chunked body with its trailers
-- completes one response, whatever the bytes of the chunks are, and what follows it is read as the
-- next head.
pub run-chunked :
    (s : Scanner) (cs : List SentChunk) (last : List ℕ) (ts : List (List ℕ)) (rest : List ℕ)
    → AllChunks cs
    → no_newline last ≡ true
    → parse_chunk_size (trim_cr last) ≡ ok 0
    → AllFields ts
    → run
        (record s { state = in_body chunk_size })
        (sent cs ++ (last ++ (b'\n' ∷ (trailer_lines ts ++ (crlf ++ rest)))))
      ≡ add_done 1 (run (record s { state = head }) rest)
run-chunked s cs last ts rest chunks one parsed fields =
    run-sent s cs (last ++ (b'\n' ∷ (trailer_lines ts ++ (crlf ++ rest)))) chunks
    ∙ (run-on (record s { state = in_body chunk_size }) (record s { state = in_body trailers }) _ _
          (last_turn s last (trailer_lines ts ++ (crlf ++ rest)) one parsed)
        ∙ run-trailers s ts rest fields)

read_turn :
    (s : Scanner) (body rest : List ℕ)
    → 0 < length body
    → exact_turn s (length body) (body ++ rest)
      ≡ more (record s { state = in_body (exact 0) }) rest 0
unfolding exact_turn
read_turn s body rest h =
    let (a, b) = take_exact body rest in
    let positive : (length body == 0) ≡ false = ground arith in
    let full : (length body == length (body ++ rest) && ltb (length body) (length body)) ≡ false =
      ground arith in
    let none_left : length body - length body ≡ 0 = omega arith in
    rw (a, b, positive, full, none_left) refl

run-done :
    (s : Scanner) (rest : List ℕ)
    → run (record s { state = in_body (exact 0) }) rest
      ≡ add_done 1 (run (record s { state = head }) rest)
unfolding turn_in exact_turn
run-done s rest =
    run-more (record s { state = in_body (exact 0) }) (record s { state = head }) rest rest 1 refl

-- A body whose length the head told completes one response with its last byte, and what follows it
-- is read as the next head.
pub run-exact :
    (s : Scanner) (body rest : List ℕ)
    → run (record s { state = in_body (exact (length body)) }) (body ++ rest)
      ≡ add_done 1 (run (record s { state = head }) rest)
unfolding turn_in
run-exact s [] rest = run-done s rest
run-exact s (c ∷ body) rest =
    run-on (record s { state = in_body (exact (length (c ∷ body))) })
      (record s { state = in_body (exact 0) }) ((c ∷ body) ++ rest) rest
      (ap (λ (t : Turn). ok t)
        (read_turn (record s { state = in_body (exact (length (c ∷ body))) }) (c ∷ body) rest
          (omega arith)))
    ∙ run-done s rest
