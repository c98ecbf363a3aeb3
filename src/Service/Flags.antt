-- ===== src/Service/Flags.antt =====
-- Flags, keys and viper, as services/*/cli and services/*/config use them.
use go_task_flow.Prelude.Int.{ℤ}
use go_task_flow.Prelude.{
  ℕ, String, ◌≡◌, Bool, true, false, Option, none, some, List, [], ◌∷◌, str_eq, if◌then◌else◌,
}

-- A flag's default, by its kind.
pub data Setting : Type 0 where
  words : String → Setting
  whole : ℤ → Setting
  span : ℕ → Setting

-- The flags that a command declares, with their defaults.
abbrev pub FlagSet : Type 0
FlagSet = List (String × Setting)

-- The calls of bindFlag: a key of viper and the flag that it reads.
abbrev pub Bindings : Type 0
Bindings = List (String × String)

unfoldable pub lookup {ℓ} : {A : Type ℓ} → String → List (String × A) → Option A
lookup k [] = none
lookup k ((j, a) ∷ m) = if str_eq j k then some a else lookup k m

-- bindFlag panics where a flag is not declared; false stands for that.
unfoldable pub bind_flags : FlagSet → Bindings → Bool
bind_flags fs [] = true
bind_flags fs ((key, flag) ∷ bs) =
    let rest = bind_flags fs bs in elim (lookup flag fs) [ none ↦ false | some d ↦ rest ]

-- viper, and the values of the flags on a command line.
pub record Viper : Type 0 where
  pub get_string : String → String
  pub get_int : String → ℤ
  pub get_duration : String → ℕ

-- What viper documents of a key that is bound to a flag, while neither the environment nor a file
-- sets the key: it has the flag's value.
pub record ReadsFlags (v : Viper) (bindings : Bindings) (flags : Viper) : Type 0 where
  pub strings :
      (key flag : String)
      → lookup key bindings ≡ some flag
      → v.get_string key ≡ flags.get_string flag
  pub ints :
      (key flag : String) → lookup key bindings ≡ some flag → v.get_int key ≡ flags.get_int flag
  pub durations :
      (key flag : String)
      → lookup key bindings ≡ some flag
      → v.get_duration key ≡ flags.get_duration flag
