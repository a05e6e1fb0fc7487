-- ===== src/InFlight.antt =====
-- src/inflight.rs: the requests in flight, found by stream number. `shift` and `offset` are the
-- constants of the protocol, 1 and 1 for HTTP/2, 2 and 0 for HTTP/3. The stream numbers stay below
-- 2 ^ 62, so that no count of slots wraps.
pub mod Window
pub mod Refines
pub mod Opens
mod Runs
use shb.Common.{
  ℕ, zero, suc, ◌+◌, ◌-◌, ◌*◌, ◌/◌, ◌^◌, ◌&&◌, Bool, true, false, List, [], ◌∷◌, ◌++◌, Option, none,
  some, ltb, leb, ◌==◌, if◌then◌else◌, length, get_elem?, set, take, drop, min, max, bit_and,
}

-- `COMPACT_FLOOR`.
abbrev pub compact_floor : ℕ
compact_floor = 64

pub record Ring {ℓ} (T : Type ℓ) : Type ℓ where
  pub slots : List (Option T)
  pub head : ℕ
  pub base : ℕ
  pub open_count : ℕ
  pub compact_at : ℕ

module _ {ℓ} {T : Type ℓ} where
  abbrev pub new : Ring T
  new = record { slots = []; head = 0; base = 0; open_count = 0; compact_at = compact_floor }

  -- Slots from the front onwards.
  abbrev pub live : Ring T → ℕ
  live r = length r.slots - r.head

  abbrev pub clear : Ring T → Ring T
  clear r = new

  -- The index of a stream's slot.
  unfoldable pub index : ℕ → ℕ → Ring T → ℕ → Option ℕ
  index shift offset r stream_id =
      if bit_and stream_id (2 ^ shift - 1) == offset
      then (if leb r.base (stream_id / 2 ^ shift) && ltb (stream_id / 2 ^ shift - r.base) (live r)
          then some (r.head + (stream_id / 2 ^ shift - r.base))
          else none)
      else none

  -- `self.slots[i]`, a hole where there is no request.
  abbrev pub join : Option (Option T) → Option T
  join none = none
  join (some item) = item

  abbrev pub get_at : Ring T → Option ℕ → Option T
  get_at r none = none
  get_at r (some i) = join (get_elem? r.slots i)

  unfoldable pub get : ℕ → ℕ → Ring T → ℕ → Option T
  get shift offset r stream_id = get_at r (index shift offset r stream_id)

  -- `self.slots.is_empty()` decides where the numbering starts.
  abbrev pub base_after : List (Option T) → ℕ → ℕ → ℕ
  base_after [] base n = n
  base_after (x ∷ xs) base n = base

  unfoldable pub push : ℕ → Ring T → ℕ → T → Ring T
  push shift r stream_id item = record r {
    slots = r.slots ++ (some item ∷ []);
    base = base_after r.slots r.base (stream_id / 2 ^ shift);
    open_count = suc r.open_count;
  }

  unfoldable pub compact : Ring T → Ring T
  compact r = record r {
    slots = drop r.head r.slots;
    head = 0;
    compact_at = max (length (drop r.head r.slots)) compact_floor;
  }

  -- How many holes stand in front.
  abbrev pub holes : List (Option T) → ℕ
  holes [] = 0
  holes (none ∷ xs) = suc (holes xs)
  holes (some x ∷ xs) = 0

  -- The end of `settle`, with the front behind the holes.
  abbrev pub trim : Ring T → Ring T
  trim r =
      if r.head == length r.slots
      then record r { slots = []; head = 0; compact_at = compact_floor }
      else if leb r.compact_at r.head
      then compact r
      else r

  unfoldable pub settle : Ring T → Ring T
  settle r = trim (record r {
    head = r.head + holes (drop r.head r.slots);
    base = r.base + holes (drop r.head r.slots);
  })

  -- What `take` does once the front has moved, by what stands there.
  abbrev pub after_front : Ring T → Option (Option T) → Ring T
  after_front r none = settle r
  after_front r (some none) = settle r
  after_front r (some (some x)) = if leb r.compact_at r.head then compact r else r

  -- The slot `i` was emptied.
  abbrev pub emptied : Ring T → ℕ → Ring T
  emptied r i =
      if i == r.head
      then after_front (record r { head = suc r.head; base = suc r.base })
          (get_elem? r.slots (suc r.head))
      else r

  abbrev pub take_slot : Ring T → ℕ → Option T → Ring T × Option T
  take_slot r i none = (r, none)
  take_slot r i (some item) = (
    emptied (record r { slots = set r.slots i none; open_count = r.open_count - 1 }) i,
    some item,
  )

  abbrev pub take_at : Ring T → Option ℕ → Ring T × Option T
  take_at r none = (r, none)
  take_at r (some i) = take_slot r i (join (get_elem? r.slots i))

  unfoldable pub take_request : ℕ → ℕ → Ring T → ℕ → Ring T × Option T
  take_request shift offset r stream_id = take_at r (index shift offset r stream_id)

  -- The requests of some slots, and the slots once they are taken.
  abbrev pub requests_of : List (Option T) → List T
  requests_of [] = []
  requests_of (none ∷ xs) = requests_of xs
  requests_of (some x ∷ xs) = x ∷ requests_of xs

  abbrev pub all_taken : List (Option T) → List (Option T)
  all_taken [] = []
  all_taken (x ∷ xs) = none ∷ all_taken xs

  -- The slots that a GOAWAY spares.
  abbrev pub spared : Ring T → ℕ → ℕ
  spared r last = min ((last + 1) / 2 - r.base) (live r)

  -- Of the HTTP/2 ring: the new ring, and what is retired, in order.
  unfoldable pub retire_after : Ring T → ℕ → Ring T × List T
  retire_after r last =
      if spared r last == 0
      then (
        record {
          slots = [];
          head = 0;
          base = r.base + live r;
          open_count = 0;
          compact_at = compact_floor;
        },
        requests_of (drop r.head r.slots),
      )
      else (
        record r {
          slots =
              take (r.head + spared r last) r.slots
              ++ all_taken (drop (r.head + spared r last) r.slots);
          open_count = r.open_count - length (requests_of (drop (r.head + spared r last) r.slots));
        },
        requests_of (drop (r.head + spared r last) r.slots),
      )

  -- `iter`.
  abbrev pub items : Ring T → List T
  items r = requests_of (drop r.head r.slots)
