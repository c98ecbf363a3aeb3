-- ===== src/Prelude/Texts.antt =====
-- Texts that share a beginning: keys and topics are a fixed prefix and a name.
use Prim.Native.Char.{Char, code}
use Prim.Native.Nat.{ℕ, zero, suc}
use Prim.Native.String.{String, ◌∷◌, ◌++◌}
use mathlib.Core.Bool.{true, false}
use mathlib.Core.Logic.{◌≢◌}
use text.Mathlib.Text.{◌==◌ as str_eq}
use text.Mathlib.TextEquality.{eq_iff}
use mathlib.Core.Path.{◌≡◌, refl, sym, ap, ◌∙◌}
use text.Mathlib.TextLemmas.{append_assoc, append_cancel_left, cons-append, head-eq_of_cons-eq}

-- Two texts that agree up to a place have the same character there.
pub code-eq_of_fork :
    (p : String) (c d : Char) (s t a b : String)
    → (p ++ c ∷ s) ++ a ≡ (p ++ d ∷ t) ++ b
    → code c ≡ code d
code-eq_of_fork p c d s t a b e =
    ap code (head-eq_of_cons-eq (sym (cons-append c s a) ∙ tails ∙ cons-append d t b))
  where
    tails : (c ∷ s) ++ a ≡ (d ∷ t) ++ b
    tails = append_cancel_left p _ _ (sym (append_assoc p (c ∷ s) a) ∙ e ∙ append_assoc p (d ∷ t) b)

pub str_eq_refl : (s : String) → str_eq s s ≡ true
str_eq_refl s = (eq_iff s s).1 refl

-- The first n characters.
abbrev pub take_text : ℕ → String → String
take_text zero s = ""
take_text (suc n) String.[] = ""
take_text (suc n) (String.◌∷◌ c s) = String.◌∷◌ c (take_text n s)

pub ne_of_str_eq : (a b : String) → str_eq a b ≡ false → a ≢ b
ne_of_str_eq a b e p = cc (e, (eq_iff a b).1 p)
