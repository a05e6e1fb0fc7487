-- ===== src/InFlight/Runs.antt =====
-- Concrete runs, and the theorems at concrete inputs.
use shb.Common.{ℕ, ◌==◌, ◌≡◌, refl, [], ◌∷◌, none, some, if◌then◌else◌, arith}
use shb.InFlight.{Ring, push, take_request, retire_after, index, settle, compact}
use shb.InFlight.Refines.{view, Without, take_request-Without}
use shb.InFlight.Opens.{push-view}

-- HTTP/2 streams 7 and 11; 5 has finished, and 9 ahead of its turn.
abbrev two_open : Ring ℕ
two_open = record {
  slots = none ∷ some 70 ∷ none ∷ some 110 ∷ [];
  head = 1;
  base = 3;
  open_count = 2;
  compact_at = 64;
}

front_taken : take_request 1 1 two_open 7 ≡ (
  record two_open {
    slots = none ∷ none ∷ none ∷ some 110 ∷ [];
    head = 3;
    base = 5;
    open_count = 1;
  },
  some 70,
)
unfolding take_request index settle compact
front_taken = refl

not_ours : take_request 1 1 two_open 6 ≡ (two_open, none)
unfolding take_request index settle compact
not_ours = refl

goaway_spares_seven : (retire_after two_open 8).1 ≡ 110 ∷ []
unfolding retire_after
goaway_spares_seven = refl

take_request-Without_example :
    ((take_request 1 1 two_open 7).1 ≡ view two_open 3)
    × Without two_open 3 (take_request 1 1 two_open 7).0
take_request-Without_example = take_request-Without 1 1 two_open 7 (omega arith) refl

push-view_example : view (push 1 two_open 13 130) 6 ≡ (if 6 == 6 then some 130 else view two_open 6)
push-view_example = push-view 1 two_open 13 6 130 (omega arith) refl
