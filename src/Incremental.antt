-- ===== src/Incremental.antt =====
-- Readers that take a stream in pieces: a loop over what is left of a buffer, whose turns go on, fail
-- or wait for more bytes. The readers of src/http3/proto.rs are such loops.
pub mod Split
use shb.Common.{ℕ, zero, suc, ◌+◌, List, [], ◌∷◌, ◌++◌, length}

-- One turn: on to the next with what is left, an error, or return.
pub data Moved (S E : Type 0) : Type 0 where
  moves : S → List ℕ → Moved S E
  fails : E → Moved S E
  waits : S → List ℕ → Moved S E

-- What a run comes to: the reader with what is left of the buffer, or an error.
pub data Ran (S E : Type 0) : Type 0 where
  left : S → List ℕ → Ran S E
  failed : E → Ran S E

abbrev pub go_on : {S E : Type 0} → (S → List ℕ → Ran S E) → Moved S E → Ran S E
go_on go (moves s rest) = go s rest
go_on go (fails e) = failed e
go_on go (waits s rest) = left s rest

-- `cut` is the error of the model alone, where the fuel has run out.
unfoldable pub loop_fuel : {S E : Type 0} → (S → List ℕ → Moved S E) → E → ℕ → S → List ℕ → Ran S E
loop_fuel turn cut zero s buf = failed cut
loop_fuel turn cut (suc fuel) s buf = go_on (loop_fuel turn cut fuel) (turn s buf)

-- A turn that goes on takes a byte at least.
unfoldable pub loop : {S E : Type 0} → (S → List ℕ → Moved S E) → E → S → List ℕ → Ran S E
loop turn cut s buf = loop_fuel turn cut (suc (length buf)) s buf
