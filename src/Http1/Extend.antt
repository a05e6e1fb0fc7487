-- ===== src/Http1/Extend.antt =====
-- One turn of the loop, with more bytes behind the buffer.
use shb.Common.{
  ℕ, ◌+◌, ◌-◌, ◌≤◌, ◌<◌, ◌≡◌, refl, sym, ap, ◌∙◌, ◌&&◌, true, false, List, [], ◌∷◌, ◌++◌, Option,
  none, some, ltb, ◌==◌, length, take, drop, arith, append-nil, length-append, drop-append,
  take-append, drop_all, take_all, length-take, Bool-cases, inl, inr,
}
use shb.Http1.Bytes.{trim_cr, Result, ok, err, ◌>>=◌, next_line}
use shb.Http1.Head.{exact, chunk_size, chunk, trailers, eof}
use shb.Http1.Scan.{
  State, head, in_body, Scanner, Turn, more, stop, head_line, size_line, trailer_line,
  terminator_ok, chunk_turn, exact_turn, line_turn, counted, turn_in, turn,
}
use shb.Http1.Terminator.{terminator_ok-append}

-- A line that begins with `x`.
abbrev pub behind : List ℕ → Option (List ℕ × List ℕ) → Option (List ℕ × List ℕ)
behind x none = none
behind x (some (line, rest)) = some (x ++ line, rest)

behind-nil : (o : Option (List ℕ × List ℕ)) → o ≡ behind [] o
behind-nil none = refl
behind-nil (some p) = refl

-- The line of a buffer with `y` behind it.
abbrev pub longer : List ℕ → List ℕ → Option (List ℕ × List ℕ) → Option (List ℕ × List ℕ)
longer x y (some (line, rest)) = some (line, rest ++ y)
longer x y none = behind x (next_line y)

pub next_line-append : (x y : List ℕ) → next_line (x ++ y) ≡ longer x y (next_line x)
unfolding next_line
next_line-append [] y = behind-nil (next_line y)
next_line-append (c ∷ x) y = ground (arith, next_line-append x y)

-- What a turn becomes with more bytes behind the buffer: a turn that goes on is the same turn, and
-- one that returned is taken again from where it returned.
abbrev pub grow : List ℕ → Result Turn → Result Turn
grow y (err e) = err e
grow y (ok (more s rest n)) = ok (more s (rest ++ y) n)
grow y (ok (stop s rest)) = turn s (rest ++ y)

line_turn-append :
    (s : Scanner) (x y : List ℕ) (on_line : List ℕ → Result (Scanner × ℕ))
    → turn s (x ++ y) ≡ line_turn s (x ++ y) on_line (next_line (x ++ y))
    → turn s (x ++ y) ≡ grow y (line_turn s x on_line (next_line x))
line_turn-append s x y on_line e = go (next_line x) refl
  where
    taken :
        (r : Result (Scanner × ℕ)) (rest : List ℕ)
        → (r >>= λ next. ok (more next.0 (rest ++ y) next.1))
          ≡ grow y (r >>= λ next. ok (more next.0 rest next.1))
    taken (ok next) rest = refl
    taken (err e) rest = refl

    go :
        (found : Option (List ℕ × List ℕ))
        → next_line x ≡ found
        → turn s (x ++ y) ≡ grow y (line_turn s x on_line found)
    go none h = refl
    go (some (line, rest)) h =
        let l : next_line (x ++ y) ≡ some (line, rest ++ y) = next_line-append x y ∙ rw h refl in
        e ∙ rw l (taken (on_line line) rest)

-- The bytes that are taken, and those that are left, where all of `x` is taken and more.
taken_all : (n : ℕ) (x : List ℕ) → length x < n → (take n x ≡ x) × (drop n x ≡ [])
taken_all n x h = (take_all n x (omega arith), drop_all n x (omega arith))

taken_within :
    (n : ℕ) (x y : List ℕ)
    → n ≤ length x
    → (take n (x ++ y) ≡ take n x) × (drop n (x ++ y) ≡ drop n x ++ y) × (length (take n x) ≡ n)
taken_within n x y h =
    let none_of : n - length x ≡ 0 = omega arith in
    (
      take-append n x y ∙ rw none_of (append-nil (take n x)),
      drop-append n x y ∙ rw none_of refl,
      omega (arith, length-take n x),
    )

taken_past :
    (n : ℕ) (x y : List ℕ)
    → length x < n
    → (take n (x ++ y) ≡ x ++ take (n - length x) y)
      × (drop n (x ++ y) ≡ drop (n - length x) y)
      × (length (take n (x ++ y)) ≡ length x + length (take (n - length x) y))
taken_past n x y h =
    let (a, b) = taken_all n x h in
    let whole : take n (x ++ y) ≡ x ++ take (n - length x) y = take-append n x y ∙ rw a refl in
    (
      whole,
      drop-append n x y ∙ rw b refl,
      ap (λ (l : List ℕ). length l) whole ∙ length-append x (take (n - length x) y),
    )

exact_turn-append :
    (s : Scanner) (n : ℕ) (x y : List ℕ)
    → ok (exact_turn s n (x ++ y)) ≡ grow y (ok (exact_turn s n x))
unfolding turn_in exact_turn
exact_turn-append s n x y = elim (Bool-cases (n == 0)) [
  | inl done ↦ rw done refl
  | inr some_left ↦ elim (Bool-cases (ltb (length x) n)) [
    | inr within ↦
        let (t, d, l) = taken_within n x y (ground arith) in
        let out : (n == length x && ltb n n) ≡ false = ground arith in
        let out' : (n == length (x ++ y) && ltb n n) ≡ false = ground arith in
        rw (some_left, t, d, l, out, out') refl
    | inl past ↦
        let (t, d) = taken_all n x (ground arith) in
        let (t', d', l') = taken_past n x y (ground arith) in
        let same : (length x == length x) ≡ true = ground arith in
        let long = length-append x y in
        let k : (n - length x == 0) ≡ false = ground arith in
        let size : n - (length x + length (take (n - length x) y))
            ≡ n - length x - length (take (n - length x) y) =
          omega arith in
        let test : (length x + length (take (n - length x) y) == length (x ++ y)
              && ltb (length x + length (take (n - length x) y)) n)
            ≡ (length (take (n - length x) y) == length y
                && ltb (length (take (n - length x) y)) (n - length x)) =
          ground (arith, long) in
        rw (some_left, t, d, same, past, l', d', k, test, size) refl
  ]
]

chunk_turn-append :
    (s : Scanner) (n : ℕ) (x y : List ℕ) → chunk_turn s n (x ++ y) ≡ grow y (chunk_turn s n x)
unfolding turn_in chunk_turn
chunk_turn-append s n x y = elim (Bool-cases (ltb (length x) n)) [
  | inr within ↦
      let (t, d, l) = taken_within n x y (ground arith) in
      let out : ltb n n ≡ false = ground arith in
      rw (t, d, l, out)
        (elim (Bool-cases (terminator_ok (take n x) (n - n))) [
          | inl good ↦ rw good refl
          | inr bad ↦ rw bad refl
        ])
  | inl past ↦
      let (t, d) = taken_all n x (ground arith) in
      let (t', d', l') = taken_past n x y (ground arith) in
      let room = length-take (n - length x) y in
      let size : n - (length x + length (take (n - length x) y))
          ≡ n - length x - length (take (n - length x) y) =
        omega arith in
      let all : length (take (n - length x) y) + (n - length x - length (take (n - length x) y))
          ≡ n - length x =
        omega (arith, room) in
      let checks : terminator_ok (x ++ take (n - length x) y)
            (n - length x - length (take (n - length x) y))
          ≡ (terminator_ok x (n - length x)
              && terminator_ok (take (n - length x) y)
                  (n - length x - length (take (n - length x) y))) =
        terminator_ok-append x (take (n - length x) y) _ ∙ rw all refl in
      let test : ltb (length x + length (take (n - length x) y)) n
          ≡ ltb (length (take (n - length x) y)) (n - length x) =
        ground arith in
      rw (l', t', d', t, d, past, size, checks, test)
        (elim (Bool-cases (terminator_ok x (n - length x))) [
          | inl good ↦ rw good refl
          | inr bad ↦ rw bad refl
        ])
]

turn_in-append :
    (st : State) (s : Scanner) (x y : List ℕ)
    → s.state ≡ st
    → turn_in st s (x ++ y) ≡ grow y (turn_in st s x)
unfolding turn_in
turn_in-append head s x y e =
    let here : turn s (x ++ y) ≡ turn_in head s (x ++ y) =
      ap (λ (st : State). turn_in st s (x ++ y)) e in
    sym here ∙ line_turn-append s x y (λ line. counted (head_line s s.partial_head line)) here
turn_in-append (in_body (exact n)) s x y e = exact_turn-append s n x y
turn_in-append (in_body chunk_size) s x y e =
    let here : turn s (x ++ y) ≡ turn_in (in_body chunk_size) s (x ++ y) =
      ap (λ (st : State). turn_in st s (x ++ y)) e in
    sym here ∙ line_turn-append s x y (λ line. counted (size_line s line)) here
turn_in-append (in_body (chunk n)) s x y e = chunk_turn-append s n x y
turn_in-append (in_body trailers) s x y e =
    let here : turn s (x ++ y) ≡ turn_in (in_body trailers) s (x ++ y) =
      ap (λ (st : State). turn_in st s (x ++ y)) e in
    sym here ∙ line_turn-append s x y (λ line. ok (trailer_line s (trim_cr line))) here
turn_in-append (in_body eof) s x y e = sym (ap (λ (st : State). turn_in st s y) e)

pub turn-append : (s : Scanner) (x y : List ℕ) → turn s (x ++ y) ≡ grow y (turn s x)
turn-append s x y = turn_in-append s.state s x y refl
