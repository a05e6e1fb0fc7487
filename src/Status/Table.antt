-- ===== src/Status/Table.antt =====
-- Every status in both encodings.
use shb.Common.{
  ℕ, zero, suc, ◌+◌, ◌-◌, ◌*◌, ◌/◌, ◌%◌, ◌^◌, ◌<◌, ◌≡◌, ◌&&◌, refl, ap, Bool, true, false, List, [],
  ◌∷◌, Option, none, some, leb, ◌==◌, ==_iff, if◌then◌else◌, arith,
}
use shb.Status.{status_value}

-- The code of a digit and its number of bits (RFC 7541, Appendix B).
abbrev pub digit_code : ℕ → ℕ × ℕ
digit_code d = if leb d 2 then (d, 5) else (25 + (d - 3), 6)

abbrev pub append_code : ℕ × ℕ → ℕ → ℕ × ℕ
append_code (bits, nbits) d =
    (bits * 2 ^ (digit_code d).1 + (digit_code d).0, nbits + (digit_code d).1)

abbrev pub code_all : ℕ → ℕ × ℕ
code_all v = append_code (append_code (append_code (0, 0) (v / 100)) (v / 10 % 10)) (v % 10)

-- Padded with ones to whole bytes, of which there are two or three.
abbrev pub pad : ℕ × ℕ → List ℕ
pad (bits, nbits) =
    if leb nbits 16
    then (let w = (bits + 1) * 2 ^ (16 - nbits) - 1 in (w / 256) ∷ (w % 256) ∷ [])
    else (let w = (bits + 1) * 2 ^ (24 - nbits) - 1 in
        (w / 65536) ∷ (w / 256 % 256) ∷ (w % 256) ∷ [])

abbrev pub huffman : ℕ → List ℕ
huffman v = pad (code_all v)

abbrev pub ascii : ℕ → List ℕ
ascii v = (48 + v / 100) ∷ (48 + v / 10 % 10) ∷ (48 + v % 10) ∷ []

-- The reading is this value.
abbrev pub reads : Option ℕ → ℕ → Bool
reads none v = false
reads (some n) v = n == v

reads_iff : (o : Option ℕ) (v : ℕ) → reads o v ≡ true → o ≡ some v
reads_iff none v h = absurd (cc)
reads_iff (some n) v h = ap some ((==_iff n v).0 h)

abbrev all_under : ℕ → (ℕ → Bool) → Bool
all_under zero p = true
all_under (suc n) p = if p n then all_under n p else false

all_under_at : (n v : ℕ) (p : ℕ → Bool) → all_under n p ≡ true → v < n → p v ≡ true
all_under_at zero v p h lt = absurd (omega arith)
all_under_at (suc n) v p h lt = ground (arith, all_under_at n v p)

-- The statuses of the hundred that starts at `first`, in both encodings.
abbrev agree : ℕ → ℕ → Bool
unfolding status_value
agree first k =
    let v = first + k in
    reads (status_value (huffman v) true) v && reads (status_value (ascii v) false) v

table_0 : all_under 100 (agree 0) ≡ true
unfolding agree
table_0 = refl

table_1 : all_under 100 (agree 100) ≡ true
unfolding agree
table_1 = refl

table_2 : all_under 100 (agree 200) ≡ true
unfolding agree
table_2 = refl

table_3 : all_under 100 (agree 300) ≡ true
unfolding agree
table_3 = refl

table_4 : all_under 100 (agree 400) ≡ true
unfolding agree
table_4 = refl

table_5 : all_under 100 (agree 500) ≡ true
unfolding agree
table_5 = refl

table_6 : all_under 100 (agree 600) ≡ true
unfolding agree
table_6 = refl

table_7 : all_under 100 (agree 700) ≡ true
unfolding agree
table_7 = refl

table_8 : all_under 100 (agree 800) ≡ true
unfolding agree
table_8 = refl

table_9 : all_under 100 (agree 900) ≡ true
unfolding agree
table_9 = refl

in_table : (q : ℕ) → q < 10 → all_under 100 (agree (100 * q)) ≡ true
in_table zero h = table_0
in_table (suc zero) h = table_1
in_table (suc (suc zero)) h = table_2
in_table (suc (suc (suc zero))) h = table_3
in_table (suc (suc (suc (suc zero)))) h = table_4
in_table (suc (suc (suc (suc (suc zero))))) h = table_5
in_table (suc (suc (suc (suc (suc (suc zero)))))) h = table_6
in_table (suc (suc (suc (suc (suc (suc (suc zero))))))) h = table_7
in_table (suc (suc (suc (suc (suc (suc (suc (suc zero)))))))) h = table_8
in_table (suc (suc (suc (suc (suc (suc (suc (suc (suc zero))))))))) h = table_9
in_table (suc (suc (suc (suc (suc (suc (suc (suc (suc (suc q)))))))))) h = absurd (omega arith)

both : (a b : Bool) → (a && b) ≡ true → (a ≡ true) × (b ≡ true)
both a b h = (ground arith, ground arith)

agree_at :
    (v first k : ℕ)
    → first + k ≡ v
    → agree first k ≡ true
    → (status_value (ascii v) false ≡ some v) × (status_value (huffman v) true ≡ some v)
unfolding agree
agree_at v first k e h =
    let (a, b) =
      both (reads (status_value (huffman v) true) v) (reads (status_value (ascii v) false) v)
        (rw e at h) in
    (reads_iff (status_value (ascii v) false) v b, reads_iff (status_value (huffman v) true) v a)

-- Each status below 1000 is read back from its three ASCII digits, and from their Huffman codes
-- padded with ones to whole bytes.
pub status_value-digits :
    (v : ℕ)
    → v < 1000
    → (status_value (ascii v) false ≡ some v) × (status_value (huffman v) true ≡ some v)
status_value-digits v h =
    let whole : 100 * (v / 100) + v % 100 ≡ v = omega arith in
    let hit : agree (100 * (v / 100)) (v % 100) ≡ true =
      all_under_at 100 (v % 100) (agree (100 * (v / 100))) (in_table (v / 100) (omega arith))
        (omega arith) in
    agree_at v _ _ whole hit
