-- ===== src/Check/Generics/Inference.antt =====
-- crates/tinox-typecheck/src/lib.rs: what `unify_param` binds, and what it keeps.
use tinox.Prelude.{
  true, false, ◌⊎◌, Option, none, some, List, Text, text_eq, text_eq_refl, ◌≡◌, refl, inl, inr,
  Bool-cases,
}
use tinox.Check.ValueType.{ValueType, ValueTypes}
use tinox.Check.Compatible.{mentions}
use tinox.Check.Generics.{Bindings, or_insert, is_any, bind, unify_param, unify_params}

-- What `b` binds, `c` binds to the same type.
abbrev pub Extends : Bindings → Bindings → Type 0
Extends b c = (n : Text) (v : ValueType) → b n ≡ some v → c n ≡ some v

-- The instance `solution` gives every type parameter a type other than `Any`, and binds no other
-- name.
abbrev pub Solves : List Text → Bindings → Type 0
Solves tparams solution =
    (n : Text)
    → ((mentions tparams n ≡ true) × ((v : ValueType) × (solution n ≡ some v) × (is_any v ≡ false)))
      ⊎ ((mentions tparams n ≡ false) × (solution n ≡ none))

pub unify-parameter :
    (n : Text) (args : ValueTypes) (arg : ValueType) (tparams : List Text) (b : Bindings)
    → mentions tparams n ≡ true
    → unify_param (ValueType.named n args) arg tparams b ≡ bind n arg b
unfolding unify_param
unify-parameter n args (ValueType.named m others) tparams b h = rw h refl
unify-parameter n args _ tparams b h = rw h refl

pub unify-named :
    (n : Text) (args others : ValueTypes) (tparams : List Text) (b : Bindings)
    → mentions tparams n ≡ false
    → unify_param (ValueType.named n args) (ValueType.named n others) tparams b
      ≡ unify_params args others tparams b
unfolding unify_param
unify-named n args others tparams b h = rw h (rw (text_eq_refl n) refl)

pub Option-cases : (o : Option ValueType) → (o ≡ none) ⊎ ((v : ValueType) × (o ≡ some v))
Option-cases none = inl refl
Option-cases (some v) = inr (v, refl)

pub or_insert-Extends : (n : Text) (v : ValueType) (b : Bindings) → Extends b (or_insert n v b)
or_insert-Extends n v b m w h = rw (h, or_insert) refl

bind-Extends : (n : Text) (v : ValueType) (b : Bindings) → Extends b (bind n v b)
bind-Extends n v b m w h = elim (Bool-cases (is_any v)) [
  | inl e ↦ rw e h
  | inr e ↦ rw e (or_insert-Extends n v b m w h)
]

mutual
  unfolding unify_param

  kept :
      (p a : ValueType) (tparams : List Text) (b : Bindings) → Extends b (unify_param p a tparams b)
  kept (ValueType.named n x) (ValueType.named m y) tparams b k v h =
      elim (Bool-cases (mentions tparams n)) [
        | inl e ↦ rw e (bind-Extends n (ValueType.named m y) b k v h)
        | inr e ↦ elim (Bool-cases (text_eq n m)) [
          | inl s ↦ rw e (rw s (kept_all x y tparams b k v h))
          | inr s ↦ rw e (rw s h)
        ]
      ]
  kept (ValueType.named n x) a tparams b k v h = elim (Bool-cases (mentions tparams n)) [
    | inl e ↦ rw e (bind-Extends n a b k v h)
    | inr e ↦ rw e h
  ]
  kept (ValueType.array p) (ValueType.array a) tparams b k v h = kept p a tparams b k v h
  kept (ValueType.map p) (ValueType.map a) tparams b k v h = kept p a tparams b k v h
  kept (ValueType.nullable p) (ValueType.nullable a) tparams b k v h = kept p a tparams b k v h
  kept (ValueType.nullable p) a tparams b k v h = kept p a tparams b k v h
  kept _ _ tparams b k v h = h

  pub kept_all :
      (p a : ValueTypes) (tparams : List Text) (b : Bindings)
      → Extends b (unify_params p a tparams b)
  kept_all (ValueTypes.cons p ps) (ValueTypes.cons a as') tparams b k v h =
      kept_all ps as' tparams (unify_param p a tparams b) k v (kept p a tparams b k v h)
  kept_all _ _ tparams b k v h = h

-- `unify_param` keeps what is bound: a type parameter that has a type keeps it, whatever types are
-- unified.
pub unify_param-Extends :
    (p a : ValueType) (tparams : List Text) (b : Bindings) (n : Text) (v : ValueType)
    → b n ≡ some v
    → unify_param p a tparams b n ≡ some v
unify_param-Extends p a tparams b n v h = kept p a tparams b n v h
