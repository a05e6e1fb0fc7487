-- ===== src/Http1/Progress.antt =====
-- Every turn that goes on comes nearer to the end, and a turn that returns leaves less than a line.
use shb.Common.{
  ℕ, zero, suc, ◌+◌, ◌-◌, ◌≤◌, ◌<◌, ◌≡◌, refl, ap, ◌&&◌, ◌⊎◌, Bool, true, false, not, List, [], ◌∷◌,
  ◌++◌, Option, none, some, ltb, ◌==◌, if◌then◌else◌, if_elim, length, take, drop, arith,
  length-take, length-drop, drop_all, Bool-cases, Option-cases, length-append, inl, inr,
}
use shb.Http1.Bytes.{trim_cr, Result, ok, err, ◌>>=◌, next_line}
use shb.Http1.Head.{exact, chunk_size, chunk, trailers, eof}
use shb.Http1.Scan.{
  State, head, in_body, Scanner, Turn, more, stop, head_line, size_line, trailer_line,
  terminator_ok, chunk_turn, exact_turn, line_turn, counted, turn_in, turn,
}

-- The turns that a state may need without reading a byte.
abbrev pub rank : State → ℕ
rank head = 0
rank (in_body (exact n)) = if n == 0 then 1 else 0
rank (in_body chunk_size) = 0
rank (in_body (chunk n)) = 1
rank (in_body trailers) = 0
rank (in_body eof) = 0

abbrev pub measure : Scanner → List ℕ → ℕ
measure s buf = length buf + length buf + rank s.state

pub rank-le : (st : State) → rank st ≤ 1
rank-le head = omega arith
rank-le (in_body (exact n)) = ground arith
rank-le (in_body chunk_size) = omega arith
rank-le (in_body (chunk n)) = omega arith
rank-le (in_body trailers) = omega arith
rank-le (in_body eof) = omega arith

-- Nothing, or bytes with a newline at their end.
abbrev pub ends_line : List ℕ → Bool
ends_line [] = true
ends_line (c ∷ []) = c == b'\n'
ends_line (c ∷ d ∷ cs) = ends_line (d ∷ cs)

pub ends_line-drop : (n : ℕ) (xs : List ℕ) → ends_line xs ≡ true → ends_line (drop n xs) ≡ true
ends_line-drop zero xs h = h
ends_line-drop (suc n) [] h = refl
ends_line-drop (suc n) (c ∷ []) h = ends_line-drop n [] refl
ends_line-drop (suc n) (c ∷ d ∷ cs) h = ends_line-drop n (d ∷ cs) h

-- A state that reads lines.
abbrev pub reads_lines : State → Bool
reads_lines head = true
reads_lines (in_body (exact n)) = false
reads_lines (in_body chunk_size) = true
reads_lines (in_body (chunk n)) = false
reads_lines (in_body trailers) = true
reads_lines (in_body eof) = false

-- Nothing is left, or a part of a line for a state that reads lines.
abbrev pub Rests : Scanner → List ℕ → Type 0
Rests s rest = (rest ≡ []) ⊎ ((reads_lines s.state ≡ true) × (next_line rest ≡ none))

abbrev pub Good : Scanner → List ℕ → Result Turn → Type 0
Good s buf (err e) = Unit
Good s buf (ok (more s' rest n)) =
    (measure s' rest < measure s buf) × (ends_line buf ≡ true → ends_line rest ≡ true)
Good s buf (ok (stop s' rest)) = Rests s' rest × (ends_line buf ≡ true → ends_line rest ≡ true)

-- The line, its newline and the rest are the buffer.
pub next_line-shape :
    (x line rest : List ℕ) → next_line x ≡ some (line, rest) → x ≡ line ++ (b'\n' ∷ rest)
unfolding next_line
next_line-shape [] line rest h = absurd (cc)
next_line-shape (c ∷ cs) line rest h = elim (Bool-cases (c == b'\n')) [
  | inl here ↦ ground (arith, rw here at h)
  | inr on ↦ elim (Option-cases (next_line cs)) [
    | inl nothing ↦ absurd (ground (arith, rw (on, nothing) at h))
    | inr ((line', rest'), found) ↦
        let ih = next_line-shape cs line' rest' found in ground (arith, rw (on, found) at h, ih)
  ]
]

next_line_rest :
    (x line rest : List ℕ)
    → next_line x ≡ some (line, rest)
    → (length rest < length x) × (ends_line x ≡ true → ends_line rest ≡ true)
next_line_rest x line rest h =
    let whole = next_line-shape x line rest h in
    let long = length-append line (b'\n' ∷ rest) in
    let behind : drop (suc (length line)) x ≡ rest = rw whole (dropped line) in
    (
      omega (arith, long, ap (λ (l : List ℕ). length l) whole),
      λ e. rw behind at (ends_line-drop (suc (length line)) x e),
    )
  where
    dropped : (l : List ℕ) → drop (suc (length l)) (l ++ (b'\n' ∷ rest)) ≡ rest
    dropped [] = refl
    dropped (c ∷ l) = dropped l

line_turn-Good :
    (s : Scanner) (x : List ℕ) (on_line : List ℕ → Result (Scanner × ℕ))
    → reads_lines s.state ≡ true
    → Good s x (line_turn s x on_line (next_line x))
line_turn-Good s x on_line reads = go (next_line x) refl
  where
    on :
        (line rest : List ℕ) (r : Result (Scanner × ℕ))
        → next_line x ≡ some (line, rest)
        → Good s x (r >>= λ next. ok (more next.0 rest next.1))
    on line rest (err e) h = tt
    on line rest (ok next) h =
        let (shorter, ends) = next_line_rest x line rest h in
        (omega (arith, rank-le next.0.state), ends)

    go :
        (found : Option (List ℕ × List ℕ))
        → next_line x ≡ found
        → Good s x (line_turn s x on_line found)
    go none h = (inr (reads, h), λ e. e)
    go (some (line, rest)) h = on line rest (on_line line) h

exact_turn-Good :
    (s : Scanner) (n : ℕ) (x : List ℕ)
    → s.state ≡ in_body (exact n)
    → Good s x (ok (exact_turn s n x))
unfolding exact_turn
exact_turn-Good s n x e =
    let r : rank s.state ≡ (if n == 0 then 1 else 0) = ap rank e in
    let size = length-take n x in
    let size' = length-drop n x in
    if_elim (λ (t : Turn). Good s x (ok t)) (n == 0) (λ done. (ground arith, λ h. h))
      (λ some_left.
        if_elim (λ (t : Turn). Good s x (ok t))
          (length (take n x) == length x && ltb (length (take n x)) n)
          (λ all. (inl (drop_all n x (ground arith)), ends_line-drop n x))
          (λ enough. (
            omega (
              arith,
              ran some_left r,
              took enough,
              rank-le (in_body (exact (n - length (take n x)))),
            ),
            ends_line-drop n x,
          )))
  where
    ran : n == 0 ≡ false → rank s.state ≡ (if n == 0 then 1 else 0) → (rank s.state ≡ 0) × (0 < n)
    ran h r = ground arith

    took : (length (take n x) == length x && ltb (length (take n x)) n) ≡ false → n ≤ length x
    took h = ground (arith, length-take n x)

chunk_turn-Good :
    (s : Scanner) (n : ℕ) (x : List ℕ) → s.state ≡ in_body (chunk n) → Good s x (chunk_turn s n x)
unfolding chunk_turn
chunk_turn-Good s n x e =
    let r : rank s.state ≡ 1 = ap rank e in
    let size = length-take n x in
    let size' = length-drop n x in
    if_elim (Good s x) (not (terminator_ok (take n x) (n - length (take n x)))) (λ bad. tt)
      (λ good.
        if_elim (Good s x) (ltb (length (take n x)) n)
          (λ short. (inl (drop_all n x (ground arith)), ends_line-drop n x))
          (λ all. (omega arith, ends_line-drop n x)))

pub turn-Good : (s : Scanner) (x : List ℕ) → Good s x (turn s x)
unfolding turn_in
turn-Good s x = go s.state refl
  where
    go : (st : State) → s.state ≡ st → Good s x (turn_in st s x)
    go head e =
        line_turn-Good s x (λ line. counted (head_line s s.partial_head line)) (ap reads_lines e)
    go (in_body (exact n)) e = exact_turn-Good s n x e
    go (in_body chunk_size) e =
        line_turn-Good s x (λ line. counted (size_line s line)) (ap reads_lines e)
    go (in_body (chunk n)) e = chunk_turn-Good s n x e
    go (in_body trailers) e =
        line_turn-Good s x (λ line. ok (trailer_line s (trim_cr line))) (ap reads_lines e)
    go (in_body eof) e = (inl refl, λ h. refl)
