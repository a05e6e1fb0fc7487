-- ===== src/Http3/Frames.antt =====
-- One turn of `ResponseReader::run`, with more bytes behind the buffer.
use shb.Common.{
  ℕ, suc, ◌-◌, ◌/◌, ◌^◌, ◌≤◌, ◌<◌, ◌≡◌, refl, sym, ap, ◌∙◌, ◌&&◌, true, false, List, [], ◌∷◌, ◌++◌,
  append-nil, Option, none, some, ltb, ◌==◌, if_elim, length, take, drop, min, length-append,
  length-drop, take-append, drop-append, drop_all, arith, Bool-cases, inl, inr,
}
use native.Mathlib.Nat.{one-le-pow}
use shb.Quic.Varint.{get_varint}
use shb.Prefix
use shb.Qpack.{find_status}
use shb.Incremental.{waits}
use shb.Incremental.Split.{Nearer, extended}
use shb.Http3.{
  Reading, second_varint, after_kind, frame_header, on_section, on_frame, frame_turn, read_turn,
  frame_headers, frame_goaway,
}

pub take-within :
    (n : ℕ) (x y : List ℕ)
    → n ≤ length x
    → (take n (x ++ y) ≡ take n x) × (drop n (x ++ y) ≡ drop n x ++ y)
take-within n x y h =
    let none_of : n - length x ≡ 0 = omega arith in
    (take-append n x y ∙ rw none_of (append-nil (take n x)), drop-append n x y ∙ rw none_of refl)

-- An integer that is whole is the same with more bytes behind it.
Reads : List ℕ → List ℕ → Option (ℕ × ℕ) → Type 0
Reads x y none = Unit
Reads x y (some (v, n)) = (get_varint (x ++ y) ≡ some (v, n)) × (1 ≤ n) × (n ≤ length x)

get_varint-Reads : (x y : List ℕ) → Reads x y (get_varint x)
unfolding get_varint Reads
get_varint-Reads [] y = tt
get_varint-Reads (first ∷ rest) y =
    if_elim (Reads (first ∷ rest) y) (ltb (suc (length rest)) (2 ^ (first / 2 ^ 6))) (λ short. tt)
      (λ whole.
        let some_bytes = one-le-pow (first / 2 ^ 6) 2 (omega arith) in
        let long = length-append rest y in
        let front = (take-within (2 ^ (first / 2 ^ 6) - 1) rest y (ground arith)).0 in
        let still : ltb (suc (length (rest ++ y))) (2 ^ (first / 2 ^ 6)) ≡ false = ground arith in
        (rw (still, front) refl, some_bytes, ground arith))

unfoldable pub Framed : List ℕ → List ℕ → Option (ℕ × ℕ × List ℕ) → Type 0
Framed x y none = Unit
Framed x y (some (kind, len, rest)) =
    (frame_header (x ++ y) ≡ some (kind, len, rest ++ y)) × (length rest < length x)

pub frame_header-Framed : (x y : List ℕ) → Framed x y (frame_header x)
unfolding frame_header Framed Reads
frame_header-Framed x y = on_kind (get_varint x) (get_varint-Reads x y)
  where
    on_length :
        (kind n m : ℕ) (o : Option (ℕ × ℕ))
        → get_varint (x ++ y) ≡ some (kind, n)
        → 1 ≤ n
        → n ≤ length x
        → Reads (drop n x) y o
        → Framed x y (second_varint kind (drop n x) o)
    on_length kind n m none e one fits v = tt
    on_length kind n m (some (len, k)) e one fits (e', one', fits') =
        let behind = (take-within n x y fits).1 in
        let behind' = (take-within k (drop n x) y fits').1 in
        (rw (e, behind, e', behind') refl, omega (arith, length-drop n x, length-drop k (drop n x)))

    on_kind : (o : Option (ℕ × ℕ)) → Reads x y o → Framed x y (after_kind x o)
    on_kind none v = tt
    on_kind (some (kind, n)) (e, one, fits) =
        on_length kind n n (get_varint (drop n x)) e one fits (get_varint-Reads (drop n x) y)

on_section-extended :
    (s : Reading) (rest y : List ℕ) (r : Prefix.Result (Option ℕ))
    → on_section s (rest ++ y) r ≡ extended read_turn y (on_section s rest r)
on_section-extended s rest y (Prefix.ok found) = refl
on_section-extended s rest y (Prefix.err e) = refl

on_frame-extended :
    (s : Reading) (x y : List ℕ) (kind len : ℕ) (rest : List ℕ)
    → read_turn s (x ++ y) ≡ on_frame s (x ++ y) (kind, len, rest ++ y)
    → read_turn s (x ++ y) ≡ extended read_turn y (on_frame s x (kind, len, rest))
unfolding on_frame
on_frame-extended s x y kind len rest again = elim (Bool-cases (kind == frame_headers)) [
  | inl section ↦ elim (Bool-cases (ltb (length rest) len)) [
    | inl short ↦ rw (section, short) refl
    | inr whole ↦
        let (front, back) = take-within len rest y (ground arith) in
        let whole' : ltb (length (rest ++ y)) len ≡ false = ground (arith, length-append rest y) in
        again
        ∙ rw (section, whole, whole', front, back)
            (on_section-extended s (drop len rest) y (find_status (take len rest)))
  ]
  | inr other ↦ elim (Bool-cases (kind == frame_goaway && ltb (2 ^ 20) len)) [
    | inl oversized ↦ again ∙ rw (other, oversized) refl
    | inr fine ↦ again ∙ rw (other, fine) refl
  ]
]

-- A reader with nothing to skip.
pub idle_turn :
    (s : Reading) (x : List ℕ) → s.skip ≡ 0 → read_turn s x ≡ frame_turn s x (frame_header x)
unfolding read_turn
idle_turn s x idle =
    let none_taken : min (s.skip) (length x) ≡ 0 = omega arith in
    let none_left : s.skip - 0 ≡ 0 = omega arith in
    let same : record s { skip = 0 } ≡ s = ap (λ (n : ℕ). record s { skip = n }) (sym idle) in
    rw (none_taken, none_left) (ap (λ (t : Reading). frame_turn t x (frame_header x)) same)

idle-extended :
    (s : Reading) (x y : List ℕ)
    → s.skip ≡ 0
    → read_turn s (x ++ y) ≡ extended read_turn y (read_turn s x)
unfolding Framed
idle-extended s x y idle =
    go (frame_header x) (frame_header-Framed x y)
    ∙ ap (extended read_turn y) (sym (idle_turn s x idle))
  where
    go :
        (o : Option (ℕ × ℕ × List ℕ))
        → Framed x y o
        → read_turn s (x ++ y) ≡ extended read_turn y (frame_turn s x o)
    go none v = refl
    go (some (kind, len, rest)) (e, shorter) =
        on_frame-extended s x y kind len rest
          (idle_turn s (x ++ y) idle ∙ ap (frame_turn s (x ++ y)) e)

started_turn :
    (s : Reading) (x : List ℕ)
    → s.skip ≤ length x
    → read_turn s x
      ≡ frame_turn (record s { skip = 0 }) (drop s.skip x) (frame_header (drop s.skip x))
unfolding read_turn
started_turn s x h =
    let all : min s.skip (length x) ≡ s.skip = omega arith in
    let none_left : s.skip - s.skip ≡ 0 = omega arith in rw (all, none_left) refl

-- The bytes to skip are within the buffer: the turn is that of a reader with nothing to skip.
pub skipped_turn :
    (s : Reading) (x : List ℕ)
    → s.skip ≤ length x
    → read_turn s x ≡ read_turn (record s { skip = 0 }) (drop s.skip x)
skipped_turn s x h =
    started_turn s x h ∙ sym (idle_turn (record s { skip = 0 }) (drop s.skip x) refl)

-- The bytes to skip are more than the buffer has.
skipping_turn :
    (s : Reading) (x : List ℕ)
    → length x < s.skip
    → read_turn s x ≡ waits (record s { skip = s.skip - length x }) []
unfolding read_turn
skipping_turn s x h =
    let all : min s.skip (length x) ≡ length x = omega arith in
    let some_left : ltb 0 (s.skip - length x) ≡ true = ground arith in
    let none : drop (length x) x ≡ [] = drop_all (length x) x (omega arith) in
    rw (all, some_left, none) refl

pub read_turn-extended :
    (s : Reading) (x y : List ℕ) → read_turn s (x ++ y) ≡ extended read_turn y (read_turn s x)
read_turn-extended s x y = elim (Bool-cases (ltb (length x) s.skip)) [
  | inr within ↦
      let long = length-append x y in
      let back = (take-within s.skip x y (ground arith)).1 in
      skipped_turn s (x ++ y) (ground arith)
      ∙ (ap (read_turn (record s { skip = 0 })) back
          ∙ (idle-extended (record s { skip = 0 }) (drop s.skip x) y refl
              ∙ ap (extended read_turn y) (sym (skipped_turn s x (ground arith)))))
  | inl past ↦
      rw (skipping_turn s x (ground arith)) (elim (Bool-cases (ltb (length (x ++ y)) s.skip)) [
        | inl still ↦
            let size : s.skip - length (x ++ y) ≡ s.skip - length x - length y =
              omega (arith, length-append x y) in
            skipping_turn s (x ++ y) (ground arith)
            ∙ (ap (λ (n : ℕ). waits (record s { skip = n }) []) size
                ∙ sym (
                    skipping_turn (record s { skip = s.skip - length x }) y
                      (ground (arith, length-append x y))))
        | inr done ↦
            let none : drop s.skip x ≡ [] = drop_all s.skip x (ground arith) in
            let behind : drop s.skip (x ++ y) ≡ drop (s.skip - length x) y =
              drop-append s.skip x y ∙ rw none refl in
            skipped_turn s (x ++ y) (ground arith)
            ∙ (ap (read_turn (record s { skip = 0 })) behind
                ∙ sym (
                    skipped_turn (record s { skip = s.skip - length x }) y
                      (ground (arith, length-append x y))))
      ])
]

on_frame-Nearer :
    (s : Reading) (x : List ℕ) (buf : List ℕ) (kind len : ℕ) (rest : List ℕ)
    → length rest < length x
    → Nearer x (on_frame s buf (kind, len, rest))
unfolding on_frame
on_frame-Nearer s x buf kind len rest h =
    if_elim (Nearer x) (kind == frame_headers)
      (λ section.
        if_elim (Nearer x) (ltb (length rest) len) (λ short. tt)
          (λ whole. on_status (find_status (take len rest))))
      (λ other.
        if_elim (Nearer x) (kind == frame_goaway && ltb (2 ^ 20) len) (λ oversized. tt) (λ fine. h))
  where
    on_status : (r : Prefix.Result (Option ℕ)) → Nearer x (on_section s (drop len rest) r)
    on_status (Prefix.ok found) = omega (arith, length-drop len rest)
    on_status (Prefix.err e) = tt

frame_turn-Nearer :
    (s : Reading) (x buf : List ℕ) (o : Option (ℕ × ℕ × List ℕ))
    → length buf ≤ length x
    → Framed buf [] o
    → Nearer x (frame_turn s buf o)
unfolding Framed
frame_turn-Nearer s x buf none h v = tt
frame_turn-Nearer s x buf (some (kind, len, rest)) h (e, shorter) =
    on_frame-Nearer s x buf kind len rest (omega arith)

-- A turn that goes on takes a byte at least.
pub read_turn-Nearer : (s : Reading) (x : List ℕ) → Nearer x (read_turn s x)
read_turn-Nearer s x = elim (Bool-cases (ltb (length x) s.skip)) [
  | inl past ↦ rw (skipping_turn s x (ground arith)) tt
  | inr within ↦ rw (started_turn s x (ground arith)) (
      frame_turn-Nearer (record s { skip = 0 }) x (drop s.skip x) (frame_header (drop s.skip x))
        (omega (arith, length-drop s.skip x)) (frame_header-Framed (drop s.skip x) []))
]
