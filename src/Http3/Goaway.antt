-- ===== src/Http3/Goaway.antt =====
-- What a reader of a control stream keeps of a GOAWAY, and that its loop ends.
use shb.Common.{
  length-drop, ℕ, zero, suc, ◌-◌, ◌≤◌, ◌≡◌, false, not, List, [], ◌++◌, Option, none, some, ltb,
  ◌==◌, if_elim, length, take, drop, min, arith,
}
use shb.Quic.Varint.{get_varint}
use shb.Incremental.{Moved, moves, fails, waits, Ran, left, failed, go_on, loop_fuel, loop}
use shb.Incremental.Split.{Nearer, loop-turn}
use shb.Http3.Frames.{Framed, frame_header-Framed}
use shb.Http3.{frame_header, frame_goaway, stream_control}
use shb.Http3.Uni.{
  UniError, out_of_turns, Control, UniReader, raises, goaway_id, control_frame, control_turn,
  UniFed, uni_fed, uni_failed, keep_pending, feed_kind, find_kind, feed_known, feed_uni,
}

-- From one GOAWAY to a later one.
abbrev pub Falls : Option ℕ → Option ℕ → Type 0
Falls none later = Unit
Falls (some id) none = ⊥
Falls (some id) (some later) = later ≤ id

Falls-refl : (o : Option ℕ) → Falls o o
Falls-refl none = tt
Falls-refl (some id) = omega arith

Falls-trans : (a b c : Option ℕ) → Falls a b → Falls b c → Falls a c
Falls-trans none b c h k = tt
Falls-trans (some a) none c h k = absurd h
Falls-trans (some a) (some b) none h k = absurd k
Falls-trans (some a) (some b) (some c) h k = omega arith

MovesDown : Option ℕ → Moved Control UniError → Type 0
MovesDown o (moves s rest) = Falls o s.goaway
MovesDown o (fails e) = Unit
MovesDown o (waits s rest) = Falls o s.goaway

raises-Falls : (o : Option ℕ) (id : ℕ) → raises o id ≡ false → Falls o (some id)
raises-Falls none id h = tt
raises-Falls (some prev) id h = ground arith

control_turn-MovesDown : (s : Control) (buf : List ℕ) → MovesDown s.goaway (control_turn s buf)
unfolding control_turn MovesDown
control_turn-MovesDown s buf =
    if_elim (MovesDown s.goaway) (ltb 0 (s.skip - min s.skip (length buf)))
      (λ skipping. Falls-refl s.goaway)
      (λ ready.
        on_frame (drop (min s.skip (length buf)) buf)
          (frame_header (drop (min s.skip (length buf)) buf)))
  where
    at : Control
    at = record s { skip = s.skip - min s.skip (length buf) }

    on_id :
        (payload rest : List ℕ) (o : Option (ℕ × ℕ))
        → MovesDown s.goaway (goaway_id at payload rest o)
    on_id payload rest none = tt
    on_id payload rest (some (id, n)) =
        if_elim (MovesDown s.goaway) (not (n == length payload)) (λ trailing. tt)
          (λ whole.
            if_elim (MovesDown s.goaway) (raises s.goaway id) (λ raised. tt)
              (λ lower. raises-Falls s.goaway id lower))

    on_frame :
        (x : List ℕ) (o : Option (ℕ × ℕ × List ℕ)) → MovesDown s.goaway (control_frame at x o)
    on_frame x none = Falls-refl s.goaway
    on_frame x (some (kind, len, rest)) =
        if_elim (MovesDown s.goaway) (kind == frame_goaway)
          (λ goaway.
            if_elim (MovesDown s.goaway) (ltb 8 len) (λ long. tt)
              (λ fits.
                if_elim (MovesDown s.goaway) (ltb (length rest) len) (λ short. Falls-refl s.goaway)
                  (λ whole. on_id (take len rest) (drop len rest) (get_varint (take len rest)))))
          (λ other. Falls-refl s.goaway)

RunsDown : Option ℕ → Ran Control UniError → Type 0
RunsDown o (left s rest) = Falls o s.goaway
RunsDown o (failed e) = Unit

loop-RunsDown :
    (fuel : ℕ) (o : Option ℕ) (s : Control) (buf : List ℕ)
    → Falls o s.goaway
    → RunsDown o (loop_fuel control_turn out_of_turns fuel s buf)
unfolding loop_fuel RunsDown MovesDown
loop-RunsDown zero o s buf h = tt
loop-RunsDown (suc fuel) o s buf h =
    go (loop-RunsDown fuel o) (control_turn s buf) (control_turn-MovesDown s buf)
  where
    go :
        ((s : Control) (buf : List ℕ)
          → Falls o s.goaway
          → RunsDown o (loop_fuel control_turn out_of_turns fuel s buf))
        → (m : Moved Control UniError) → MovesDown s.goaway m
        → RunsDown o (go_on (loop_fuel control_turn out_of_turns fuel) m)
    go ih (moves s' rest) v = ih s' rest (Falls-trans o s.goaway s'.goaway h v)
    go ih (fails e) v = tt
    go ih (waits s' rest) v = Falls-trans o s.goaway s'.goaway h v

FeedsDown : Option ℕ → UniFed → Type 0
FeedsDown o (uni_fed r) = Falls o r.control.goaway
FeedsDown o (uni_failed e) = Unit

feed_uni-FeedsDown :
    (r : UniReader) (bytes : List ℕ) → FeedsDown r.control.goaway (feed_uni r bytes)
unfolding feed_uni FeedsDown RunsDown loop
feed_uni-FeedsDown r bytes = known (r.pending ++ bytes) r.kind
  where
    kept :
        (kind : ℕ) (m : Ran Control UniError)
        → RunsDown r.control.goaway m
        → FeedsDown r.control.goaway (keep_pending kind m)
    kept kind (left s rest) v = v
    kept kind (failed e) v = tt

    of_kind : (kind : ℕ) (buf : List ℕ) → FeedsDown r.control.goaway (feed_kind kind r.control buf)
    of_kind kind buf =
        if_elim (FeedsDown r.control.goaway) (kind == stream_control)
          (λ control. kept kind (loop control_turn out_of_turns r.control buf) (
            loop-RunsDown (suc (length buf)) r.control.goaway r.control buf
              (Falls-refl r.control.goaway)))
          (λ other. Falls-refl r.control.goaway)

    found : (buf : List ℕ) (o : Option (ℕ × ℕ)) → FeedsDown r.control.goaway (find_kind r buf o)
    found buf none = Falls-refl r.control.goaway
    found buf (some (kind, n)) = of_kind kind (drop n buf)

    known : (buf : List ℕ) (o : Option ℕ) → FeedsDown r.control.goaway (feed_known r buf o)
    known buf none = found buf (get_varint buf)
    known buf (some kind) = of_kind kind buf

-- A GOAWAY that was accepted is never forgotten and never raised, whatever the peer sends after it.
pub feed_uni-Falls :
    (r q : UniReader) (bytes : List ℕ)
    → feed_uni r bytes ≡ uni_fed q
    → Falls r.control.goaway q.control.goaway
unfolding FeedsDown
feed_uni-Falls r q bytes h = rw h at (feed_uni-FeedsDown r bytes)

control_frame-Nearer :
    (s : Control) (x buf : List ℕ) (o : Option (ℕ × ℕ × List ℕ))
    → length buf ≤ length x
    → Framed buf [] o
    → Nearer x (control_frame s buf o)
unfolding Framed
control_frame-Nearer s x buf none h v = tt
control_frame-Nearer s x buf (some (kind, len, rest)) h (e, shorter) =
    if_elim (Nearer x) (kind == frame_goaway)
      (λ goaway.
        if_elim (Nearer x) (ltb 8 len) (λ long. tt)
          (λ fits.
            if_elim (Nearer x) (ltb (length rest) len) (λ short. tt)
              (λ whole. on_id (take len rest) (get_varint (take len rest)))))
      (λ other. omega arith)
  where
    on_id :
        (payload : List ℕ) (o : Option (ℕ × ℕ)) → Nearer x (goaway_id s payload (drop len rest) o)
    on_id payload none = tt
    on_id payload (some (id, n)) =
        if_elim (Nearer x) (not (n == length payload)) (λ trailing. tt)
          (λ whole.
            if_elim (Nearer x) (raises s.goaway id) (λ raised. tt)
              (λ lower. omega (arith, length-drop len rest)))

control_turn-Nearer : (s : Control) (x : List ℕ) → Nearer x (control_turn s x)
unfolding control_turn
control_turn-Nearer s x =
    if_elim (Nearer x) (ltb 0 (s.skip - min s.skip (length x))) (λ skipping. tt)
      (λ ready.
        let y = drop (min s.skip (length x)) x in
        control_frame-Nearer (record s { skip = s.skip - min s.skip (length x) }) x y
          (frame_header y) (omega (arith, length-drop (min s.skip (length x)) x))
          (frame_header-Framed y []))

-- The loop of `UniReader::feed` is its turns: the fuel never runs out.
pub loop-control_turn :
    (s : Control) (x : List ℕ)
    → loop control_turn out_of_turns s x ≡ go_on (loop control_turn out_of_turns) (control_turn s x)
loop-control_turn = loop-turn control_turn out_of_turns control_turn-Nearer
