-- ===== src/Carrier.antt =====
-- internal/kafka/carrier.go: the message headers as a map of the trace context. Set filters into
-- the array that it reads, always at or before the place it reads, so its result is that of a
-- fresh list.
pub mod InPlace
use go_task_flow.Prelude.Texts.{str_eq_refl}
use go_task_flow.World.{Header}
use go_task_flow.Prelude.{
  ℕ, suc, String, ◌≡◌, inl, inr, false, List, [], ◌∷◌, ◌++◌, arith, str_eq, eq_iff, if◌then◌else◌,
  Bool-cases,
}

abbrev pub HeaderCarrier : Type 0
HeaderCarrier = List Header

-- The first header of the key, or the empty text.
unfoldable pub get : HeaderCarrier → String → String
get [] key = ""
get (h ∷ c) key = if str_eq h.key key then h.value else get c key

-- The headers of other keys.
unfoldable pub filtered : HeaderCarrier → String → HeaderCarrier
filtered [] key = []
filtered (h ∷ c) key = let rest = filtered c key in if str_eq h.key key then rest else h ∷ rest

abbrev header : String → String → Header
header key value = record { key = key; value = value }

unfoldable pub set : HeaderCarrier → String → String → HeaderCarrier
unfolding filtered
set c key value = filtered c key ++ header key value ∷ []

unfoldable pub keys : HeaderCarrier → List String
keys [] = []
keys (h ∷ c) = h.key ∷ keys c

-- How often a key occurs.
unfoldable pub occurrences : String → List String → ℕ
occurrences key [] = 0
occurrences key (k ∷ ks) = let rest = occurrences key ks in if str_eq k key then suc rest else rest

append_get : (c : HeaderCarrier) (key value : String) → get (set c key value) key ≡ value
unfolding set filtered get
append_get [] key value = ground (arith, str_eq_refl key)
append_get (h ∷ c) key value = elim (Bool-cases (str_eq h.key key)) [
  | inl same ↦ ground (arith, append_get c key value)
  | inr other ↦ ground (arith, append_get c key value)
]

append_get_other :
    (c : HeaderCarrier) (key value k : String)
    → str_eq key k ≡ false
    → get (set c key value) k ≡ get c k
unfolding set filtered get
append_get_other [] key value k apart = ground arith
append_get_other (h ∷ c) key value k apart = elim (Bool-cases (str_eq h.key key)) [
  | inl same ↦
      let skipped : str_eq h.key k ≡ false = rw ((eq_iff h.key key).0 same, apart) in
      ground (arith, append_get_other c key value k apart)
  | inr other ↦ ground (arith, append_get_other c key value k apart)
]

append_occurrences :
    (c : HeaderCarrier) (key value : String) → occurrences key (keys (set c key value)) ≡ 1
unfolding set filtered keys occurrences
append_occurrences [] key value = ground (arith, str_eq_refl key)
append_occurrences (h ∷ c) key value = elim (Bool-cases (str_eq h.key key)) [
  | inl same ↦ ground (arith, append_occurrences c key value)
  | inr other ↦ ground (arith, append_occurrences c key value)
]

-- Set is a map's update: its key reads as the value, every other key reads as before, and Keys
-- lists the key once, however often it occurred.
pub set-Updates :
    (c : HeaderCarrier) (key value : String)
    → (get (set c key value) key ≡ value)
      × ((k : String) → str_eq key k ≡ false → get (set c key value) k ≡ get c k)
      × (occurrences key (keys (set c key value)) ≡ 1)
set-Updates c key value =
    (append_get c key value, append_get_other c key value, append_occurrences c key value)
