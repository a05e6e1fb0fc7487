-- ===== src/Quic/Received/Runs.antt =====
-- Concrete runs, and the theorems at concrete inputs.
use shb.Common.{◌≡◌, refl, false, [], ◌∷◌, if◌then◌else◌, arith}
use shb.Quic.Received.{ReceivedPackets, default, insert}
use shb.Quic.Received.Place.{place}
use shb.Quic.Received.Evict.{trim}
use shb.Quic.Received.Refines.{IsValid, seen, insert-trim}
use shb.Quic.Received.Once.{insert_all, insert-IsValid, insert_once}

-- The numbers of the test `packet_number_boundaries_do_not_wrap`.
boundary_run :
    (insert_all default (1000 ∷ 998 ∷ 999 ∷ 0 ∷ 1 ∷ [])).ranges ≡ (998, 1000) ∷ (0, 1) ∷ []
unfolding insert default
boundary_run = refl

abbrev gaps : ReceivedPackets
gaps = record { ranges = (7, 9) ∷ (2, 5) ∷ []; minimum = 1 }

gaps-IsValid : IsValid gaps
gaps-IsValid = omega arith

insert-trim_example :
    insert gaps 6
    ≡ (if seen gaps 6 then (gaps, false) else trim 1 (place ((7, 9) ∷ (2, 5) ∷ []) 6) 6)
insert-trim_example = insert-trim gaps 6 gaps-IsValid (omega arith)

insert-IsValid_example : IsValid (insert gaps 6).0
insert-IsValid_example = insert-IsValid gaps 6 gaps-IsValid (omega arith)

insert_once_example :
    (insert (insert_all (insert (insert_all default (3 ∷ 9 ∷ [])) 5).0 (4 ∷ 6 ∷ [])) 5).1 ≡ false
insert_once_example =
    insert_once (3 ∷ 9 ∷ []) (4 ∷ 6 ∷ []) 5 (omega arith) (omega arith) (omega arith)
