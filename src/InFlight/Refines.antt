-- ===== src/InFlight/Refines.antt =====
-- The ring is a map from the numbers of the streams to their requests.
use shb.Common.{
  ℕ, zero, suc, ◌+◌, ◌-◌, ◌/◌, ◌^◌, ◌≤◌, ◌<◌, ◌≡◌, refl, sym, ap, ◌∙◌, true, false, List, [], ◌∷◌,
  Option, none, some, ◌&&◌, ltb, leb, ◌==◌, if◌then◌else◌, if_elim, Bool-cases, inl, inr, length,
  get_elem?, set, drop, length-drop, drop-drop, drop_all, bit_and, arith,
}
use shb.InFlight.{
  Ring, join, holes, trim, compact, settle, after_front, emptied, take_slot, take_request, take_at,
  get_at, index, get, live,
}
use shb.InFlight.Window.{
  window, seen, held, get_elem?-drop, drop-set, length-set, seen-set, held-hole, held-holes,
  length-holes,
}

-- A stream number of ours: what is left below the shift is the protocol's offset.
abbrev pub IsOurs : ℕ → ℕ → ℕ → Type 0
IsOurs shift offset stream_id = bit_and stream_id (2 ^ shift - 1) ≡ offset

module _ {ℓ} {T : Type ℓ} where
  -- The request of the stream with the number `n`.
  abbrev pub view : Ring T → ℕ → Option T
  view r n = held r.base (window r) n

  -- The ring `s` holds what `r` holds, and its front is within its slots.
  pub record Keeps (r s : Ring T) : Type ℓ where
    pub same : (n : ℕ) → view s n ≡ view r n
    pub front : s.head ≤ length s.slots

  compact-Keeps : (r : Ring T) → Keeps r (compact r)
  unfolding compact
  compact-Keeps r = record { same = λ n. refl; front = omega arith }

  trim-Keeps : (r : Ring T) → r.head ≤ length r.slots → Keeps r (trim r)
  trim-Keeps r h =
      if_elim (Keeps r) (r.head == length r.slots)
        (λ drained. record {
          same = λ n.
              let e : drop r.head r.slots ≡ [] = drop_all r.head r.slots (ground arith) in
              rw e refl;
          front = omega arith;
        })
        (λ _.
          if_elim (Keeps r) (leb r.compact_at r.head) (λ _. compact-Keeps r)
            (λ _. record { same = λ n. refl; front = h }))

  settle-Keeps : (r : Ring T) → r.head ≤ length r.slots → Keeps r (settle r)
  unfolding settle
  settle-Keeps r h =
      let on : Ring T = record r {
        head = r.head + holes (window r);
        base = r.base + holes (window r);
      } in
      let v = trim-Keeps on (omega (arith, length-holes (window r), length-drop r.head r.slots)) in
      record {
        same = λ n.
            v.same n
            ∙ (ap (λ (w : List (Option T)). held (r.base + holes (window r)) w n)
                  (sym (drop-drop (holes (window r)) r.head r.slots))
                ∙ held-holes r.base n (window r));
        front = v.front;
      }

  after_front-Keeps :
      (r : Ring T) (at : Option (Option T)) → r.head ≤ length r.slots → Keeps r (after_front r at)
  after_front-Keeps r none h = settle-Keeps r h
  after_front-Keeps r (some none) h = settle-Keeps r h
  after_front-Keeps r (some (some x)) h =
      if_elim (Keeps r) (leb r.compact_at r.head) (λ _. compact-Keeps r)
        (λ _. record { same = λ n. refl; front = h })

  -- Past a hole in front.
  step-same :
      (slots : List (Option T)) (head base n : ℕ)
      → get_elem? slots head ≡ some none
      → held (suc base) (drop (suc head) slots) n ≡ held base (drop head slots) n
  step-same [] head base n e = absurd (cc)
  step-same (some x ∷ slots) zero base n e = absurd (cc)
  step-same (none ∷ slots) zero base n e = sym (held-hole base n slots)
  step-same (x ∷ slots) (suc head) base n e = step-same slots head base n e

  emptied-Keeps :
      (r : Ring T) (i : ℕ)
      → get_elem? r.slots i ≡ some none
      → r.head < length r.slots
      → Keeps r (emptied r i)
  emptied-Keeps r i e h =
      if_elim (Keeps r) (i == r.head)
        (λ front.
          let here : i ≡ r.head = ground arith in
          let v =
            after_front-Keeps (record r { head = suc r.head; base = suc r.base })
              (get_elem? r.slots (suc r.head)) (omega arith) in
          record {
            same = λ n. v.same n ∙ step-same r.slots r.head r.base n (rw here at e);
            front = v.front;
          })
        (λ _. record { same = λ n. refl; front = omega arith })

  seen-index :
      (r : Ring T) (n : ℕ)
      → view r n ≡ (
          if leb r.base n && ltb (n - r.base) (live r)
          then join (get_elem? r.slots (r.head + (n - r.base)))
          else none)
  seen-index r n = elim (Bool-cases (leb r.base n)) [
    | inr before ↦ rw before refl
    | inl after ↦ rw after (elim (Bool-cases (ltb (n - r.base) (live r))) [
      | inl within ↦ rw within (ap join (sym (get_elem?-drop r.head (n - r.base) r.slots)))
      | inr beyond ↦ rw beyond (
          seen-beyond (window r) (n - r.base)
            (omega (arith, length-drop r.head r.slots, ltb-false beyond)))
    ])
  ]
    where
      ltb-false : {a b : ℕ} → ltb a b ≡ false → b ≤ a
      ltb-false h = ground arith

      seen-beyond : (w : List (Option T)) (k : ℕ) → length w ≤ k → seen w k ≡ none
      seen-beyond [] k h = refl
      seen-beyond (x ∷ w) zero h = absurd (omega arith)
      seen-beyond (x ∷ w) (suc k) h = seen-beyond w k (omega arith)

  index-ours :
      (shift offset : ℕ) (r : Ring T) (stream_id : ℕ)
      → IsOurs shift offset stream_id
      → index shift offset r stream_id ≡ (
          if leb r.base (stream_id / 2 ^ shift) && ltb (stream_id / 2 ^ shift - r.base) (live r)
          then some (r.head + (stream_id / 2 ^ shift - r.base))
          else none)
  unfolding index
  index-ours shift offset r stream_id h =
      if_elim
        (λ (o : Option ℕ). o ≡ (
          if leb r.base (stream_id / 2 ^ shift) && ltb (stream_id / 2 ^ shift - r.base) (live r)
          then some (r.head + (stream_id / 2 ^ shift - r.base))
          else none))
        (bit_and stream_id (2 ^ shift - 1) == offset) (λ _. refl) (λ no. absurd (ground arith))

  get_at-view :
      (r : Ring T) (n : ℕ) (o : Option ℕ)
      → o
        ≡ (if leb r.base n && ltb (n - r.base) (live r) then some (r.head + (n - r.base)) else none)
      → get_at r o ≡ view r n
  get_at-view r n o e =
      let found = seen-index r n in
      elim (Bool-cases (leb r.base n && ltb (n - r.base) (live r))) [
        | inl hit ↦
            let i : o ≡ some (r.head + (n - r.base)) = e ∙ rw hit refl in
            rw i (sym (found ∙ rw hit refl))
        | inr miss ↦ let i : o ≡ none = e ∙ rw miss refl in rw i (sym (found ∙ rw miss refl))
      ]

  -- A lookup of one of our streams is the map's.
  pub get-view :
      (shift offset : ℕ) (r : Ring T) (stream_id : ℕ)
      → IsOurs shift offset stream_id
      → get shift offset r stream_id ≡ view r (stream_id / 2 ^ shift)
  unfolding get
  get-view shift offset r stream_id h =
      get_at-view r (stream_id / 2 ^ shift) _ (index-ours shift offset r stream_id h)

  held-at : (base k : ℕ) (w : List (Option T)) → held base w (base + k) ≡ seen w k
  held-at base k w =
      let on : leb base (base + k) ≡ true = ground arith in
      let e : base + k - base ≡ k = omega arith in rw (on, e) refl

  held-set :
      (base k m : ℕ) (w : List (Option T))
      → held base (set w k none) m ≡ (if m == base + k then none else held base w m)
  held-set base k m w = elim (Bool-cases (leb base m)) [
    | inl after ↦
        let e : (m == base + k) ≡ (m - base == k) = ground arith in
        rw (after, e) (seen-set k (m - base) w)
    | inr before ↦ let e : (m == base + k) ≡ false = ground arith in rw (before, e) refl
  ]

  get_elem?-set :
      (i : ℕ) (v : Option T) (xs : List (Option T))
      → i < length xs
      → get_elem? (set xs i v) i ≡ some v
  get_elem?-set i v [] h = absurd (omega arith)
  get_elem?-set zero v (x ∷ xs) h = refl
  get_elem?-set (suc i) v (x ∷ xs) h = get_elem?-set i v xs (omega arith)

  -- What `take` leaves is the map without the number `n`.
  pub record Without (r : Ring T) (n : ℕ) (s : Ring T) : Type ℓ where
    pub others : (m : ℕ) → view s m ≡ (if m == n then none else view r m)
    pub front : s.head ≤ length s.slots

  take_slot-Without :
      (r : Ring T) (k : ℕ) (found : Option T)
      → r.head + k < length r.slots
      → join (get_elem? r.slots (r.head + k)) ≡ found
      → Without r (r.base + k) (take_slot r (r.head + k) found).0
        × ((take_slot r (r.head + k) found).1 ≡ found)
  take_slot-Without r k none h f = (
    record {
      others = λ m. elim (Bool-cases (m == r.base + k)) [
        | inl here ↦
            let e : m ≡ r.base + k = ground arith in
            rw here (
              ap (view r) e
              ∙ held-at r.base k (window r)
              ∙ (ap join (sym (get_elem?-drop r.head k r.slots)) ∙ f))
        | inr there ↦ rw there refl
      ];
      front = omega arith;
    },
    refl,
  )
  take_slot-Without r k (some item) h f =
      let s : Ring T = record r {
        slots = set r.slots (r.head + k) none;
        open_count = r.open_count - 1;
      } in
      let long = length-set (r.head + k) none r.slots in
      let v =
        emptied-Keeps s (r.head + k) (get_elem?-set (r.head + k) none r.slots h)
          (omega (arith, long)) in
      (
        record {
          others = λ m.
              v.same m
              ∙ (ap (λ (w : List (Option T)). held r.base w m) (drop-set r.head k none r.slots)
                  ∙ held-set r.base k m (window r));
          front = v.front;
        },
        refl,
      )

  take_at-Without :
      (r : Ring T) (n : ℕ) (o : Option ℕ)
      → r.head ≤ length r.slots
      → o
        ≡ (if leb r.base n && ltb (n - r.base) (live r) then some (r.head + (n - r.base)) else none)
      → ((take_at r o).1 ≡ view r n) × Without r n (take_at r o).0
  take_at-Without r n o b e =
      let found = seen-index r n in
      elim (Bool-cases (leb r.base n && ltb (n - r.base) (live r))) [
        | inl hit ↦
            let i : o ≡ some (r.head + (n - r.base)) = e ∙ rw hit refl in
            let whole : r.base + (n - r.base) ≡ n = ground arith in
            let (v, got) = take_slot-Without r (n - r.base) _ (ground arith) refl in
            rw i (got ∙ sym (found ∙ rw hit refl), rw whole at v)
        | inr miss ↦
            let i : o ≡ none = e ∙ rw miss refl in
            let nothing : view r n ≡ none = found ∙ rw miss refl in
            rw i (
              sym nothing,
              record {
                others = λ m. elim (Bool-cases (m == n)) [
                  | inl here ↦ let e : m ≡ n = ground arith in rw here (ap (view r) e ∙ nothing)
                  | inr there ↦ rw there refl
                ];
                front = b;
              },
            )
      ]

  -- Taking one of our streams gives back its request, if there is one, and leaves the map without it:
  -- every other stream is found as before, however the slots were trimmed and moved.
  pub take_request-Without :
      (shift offset : ℕ) (r : Ring T) (stream_id : ℕ)
      → r.head ≤ length r.slots
      → IsOurs shift offset stream_id
      → ((take_request shift offset r stream_id).1 ≡ view r (stream_id / 2 ^ shift))
        × Without r (stream_id / 2 ^ shift) (take_request shift offset r stream_id).0
  unfolding take_request
  take_request-Without shift offset r stream_id b h =
      take_at-Without r (stream_id / 2 ^ shift) _ b (index-ours shift offset r stream_id h)
