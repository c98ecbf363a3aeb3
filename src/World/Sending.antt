-- ===== src/World/Sending.antt =====
-- What a computation sends to Kafka, acknowledged or not.
use mathlib.Core.List.{Memᴰ}
use mathlib.Core.Path.{subst}
use go_task_flow.World.{History, Outgoing, Env}
use go_task_flow.World.Views.{sent}
use go_task_flow.Producer.{publish}
use go_task_flow.Prelude.{
  String, ◌≡◌, refl, sym, ◌∙◌, ◌⊎◌, inl, inr, ◌∷◌, str_eq, eq_iff, if◌then◌else◌, Bool-cases,
}

-- Every message that was sent between two states, whether Kafka acknowledged it or not, satisfies
-- a predicate.
abbrev pub Adds : (String → Outgoing → Type 0) → History → History → Type 0
Adds P h g = (t : String) (m : Outgoing) → Memᴰ m (sent t g) → Memᴰ m (sent t h) ⊎ P t m

pub Adds-none :
    (P : String → Outgoing → Type 0) (h g : History)
    → ((t : String) → sent t g ≡ sent t h)
    → Adds P h g
Adds-none P h g same t m x = inl (subst (Memᴰ m) (same t) x)

one_more :
    (P : String → Outgoing → Type 0) (h : History) (x : Outgoing) (t : String) (m : Outgoing)
    → P t x
    → Memᴰ m (x ∷ sent t h)
    → Memᴰ m (sent t h) ⊎ P t m
one_more P h x t m p (Memᴰ.head e) = inr (subst (P t) (sym e) p)
one_more P h x t m p (Memᴰ.tail y) = inl y

pub Adds-one :
    (P : String → Outgoing → Type 0) (h g : History) (x : Outgoing)
    → ((t : String) → sent t g ≡ (if str_eq x.topic t then x ∷ sent t h else sent t h))
    → P x.topic x
    → Adds P h g
Adds-one P h g x one p t m y = elim (Bool-cases (str_eq x.topic t)) [
  | inl here ↦
      one_more P h x t m (subst (λ s. P s x) ((eq_iff x.topic t).0 here) p)
        (subst (Memᴰ m) (one t ∙ (rw here refl)) y)
  | inr there ↦ inl (subst (Memᴰ m) (one t ∙ (rw there refl)) y)
]

pub Adds-trans :
    (P : String → Outgoing → Type 0) (h k g : History) → Adds P h k → Adds P k g → Adds P h g
Adds-trans P h k g a b t m x = elim (b t m x) [ inl y ↦ a t m y | inr p ↦ inr p ]

pub publish-Adds :
    (env : Env) (P : String → Outgoing → Type 0) (topic key value : String) (h : History)
    → P topic (record { topic = topic; key = key; value = value })
    → Adds P h (publish env topic key value h).1
unfolding publish sent
publish-Adds env P topic key value h p =
    Adds-one P h (publish env topic key value h).1
      (record { topic = topic; key = key; value = value }) (λ t. refl) p
