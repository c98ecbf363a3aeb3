-- ===== src/Service/Brokers.antt =====
-- strings.Split(cfg.KafkaBrokers, ","): the brokers of a flag's value.
use text.Mathlib.TextEquality.{Char-path}
use text.Mathlib.TextLemmas.{cons-append, nil-append}
use go_task_flow.Prelude.{
  String, ◌<>◌, ◌≡◌, refl, inl, inr, Bool, false, ◌||◌, List, [], ◌∷◌, ◌==◌, if◌then◌else◌,
  Bool-cases, ap, ◌∙◌, arith, sym,
}
use Prim.Native.Char.{Char, code}

-- A character in front of the first field.
abbrev before_first : Char → List String → List String
before_first c [] = (String.◌∷◌ c "") ∷ []
before_first c (s ∷ fields) = (String.◌∷◌ c s) ∷ fields

unfoldable pub split_commas : String → List String
split_commas String.[] = "" ∷ []
split_commas (String.◌∷◌ c s) =
    let rest = split_commas s in if code c == b',' then "" ∷ rest else before_first c rest

-- The fields with a comma between each two.
unfoldable pub join_commas : List String → String
join_commas [] = ""
join_commas (s ∷ []) = s
join_commas (s ∷ t ∷ fields) = s <> ("," <> join_commas (t ∷ fields))

unfoldable pub has_comma : String → Bool
has_comma String.[] = false
has_comma (String.◌∷◌ c s) = code c == b',' || has_comma s

unfoldable pub NoCommas : List String → Type 0
NoCommas [] = Unit
NoCommas (s ∷ fields) = (has_comma s ≡ false) × NoCommas fields

-- The first field and the others.
split_cons :
    (s : String) → (first : String) × (rest : List String) × (split_commas s ≡ first ∷ rest)
unfolding split_commas
split_cons String.[] = ("", [], refl)
split_cons (String.◌∷◌ c s) = elim (Bool-cases (code c == b',')) [
  | inl comma ↦ ("", split_commas s, rw comma refl)
  | inr other ↦
      let (first, rest, e) = split_cons s in (String.◌∷◌ c first, rest, rw (other, e) refl)
]

join-before_first :
    (c : Char) (first : String) (rest : List String)
    → join_commas (before_first c (first ∷ rest)) ≡ String.◌∷◌ c (join_commas (first ∷ rest))
unfolding join_commas
join-before_first c first [] = refl
join-before_first c first (t ∷ rest) = cons-append c first _

join_empty : join_commas ("" ∷ []) ≡ ""
unfolding join_commas
join_empty = refl

join_comma :
    (first : String) (rest : List String)
    → join_commas ("" ∷ first ∷ rest) ≡ "" <> ("," <> join_commas (first ∷ rest))
unfolding join_commas
join_comma first rest = refl

comma-append : (s : String) → "," <> s ≡ String.◌∷◌ "," s
comma-append s = cons-append "," "" s ∙ ap (String.◌∷◌ ",") (nil-append s)

join-split : (s : String) → join_commas (split_commas s) ≡ s
unfolding split_commas
join-split String.[] = join_empty
join-split (String.◌∷◌ c s) = elim (Bool-cases (code c == b',')) [
  | inl comma ↦
      let (first, rest, e) = split_cons s in
      let same : c ≡ "," = Char-path c "," (ground arith) in
      let joined : join_commas (first ∷ rest) ≡ s = ap join_commas (sym e) ∙ join-split s in
      rw (comma, same, e)
        (join_comma first rest ∙ nil-append _ ∙ comma-append _ ∙ ap (String.◌∷◌ ",") joined)
  | inr other ↦
      let (first, rest, e) = split_cons s in
      let joined : join_commas (first ∷ rest) ≡ s = ap join_commas (sym e) ∙ join-split s in
      rw (other, e) (join-before_first c first rest ∙ ap (String.◌∷◌ c) joined)
]

NoCommas-before_first :
    (c : Char) (fields : List String)
    → code c == b',' ≡ false
    → NoCommas fields
    → NoCommas (before_first c fields)
unfolding NoCommas has_comma
NoCommas-before_first c [] other plain = (ground arith, tt)
NoCommas-before_first c (s ∷ fields) other plain = (ground arith, plain.1)

split-NoCommas : (s : String) → NoCommas (split_commas s)
unfolding split_commas NoCommas has_comma
split-NoCommas String.[] = (refl, tt)
split-NoCommas (String.◌∷◌ c s) = elim (Bool-cases (code c == b',')) [
  | inl comma ↦ rw comma (refl, split-NoCommas s)
  | inr other ↦ rw other (NoCommas-before_first c (split_commas s) other (split-NoCommas s))
]

-- The brokers that the commands take from the flag are the fields of its value: none has a comma,
-- and with commas between them they are the value again.
pub split_commas_lem : (s : String) → (join_commas (split_commas s) ≡ s) × NoCommas (split_commas s)
split_commas_lem s = (join-split s, split-NoCommas s)
