-- ===== src/Budget/Runs.antt =====
-- Concrete runs, and the theorem at a concrete input.
use shb.Common.{◌≡◌, refl, ◌∷◌, [], length, All, arith}
use shb.Budget.{requests, split}
use shb.Budget.Split.{sum_requests, IsEven, split-requests}

ten_by_four : split (requests 10) 4 ≡ requests 3 ∷ requests 3 ∷ requests 2 ∷ requests 2 ∷ []
unfolding split
ten_by_four = refl

split-requests_example :
    (sum_requests (split (requests 10) 4) ≡ 10)
    × (length (split (requests 10) 4) ≡ 4)
    × All (IsEven 10 4) (split (requests 10) 4)
split-requests_example = split-requests 10 4 (omega arith)
