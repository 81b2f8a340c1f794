-- ===== src/Check/Inheritance/Chain.antt =====
-- crates/tinox-typecheck/src/lib.rs: `is_subclass_or_equal` against the chain of parent classes.
use tinox.Prelude.{
  ℕ, zero, suc, ◌<◌, Bool, true, false, if◌then◌else◌, Option, none, some, Text, text_eq,
  text_eq_refl, text_eq→≡, ◌≡◌, ◌≢◌, ◌↔◌, ◌⊎◌, refl, sym, ◌∙◌, arith, inl, inr, Bool-cases,
}
use tinox.Check.Inheritance.{Parents, climb, is_subclass_or_equal}

-- `base` is the class itself or one of the classes above it.
pub data Inherits (parents : Parents) (base : Text) : Text → Type 0 where
  itself : {class : Text} → class ≡ base → Inherits parents base class
  above :
      {class : Text} (parent : Text)
      → parents class ≡ some parent
      → Inherits parents base parent
      → Inherits parents base class

-- Every class stands above its parent: there is no cycle.
abbrev pub Acyclic : Parents → (Text → ℕ) → Type 0
Acyclic parents rank = (c p : Text) → parents c ≡ some p → rank p < rank c

Option-cases : (o : Option Text) → (o ≡ none) ⊎ ((p : Text) × (o ≡ some p))
Option-cases none = inl refl
Option-cases (some p) = inr (p, refl)

none≢some : {b : Bool} → none ≢ some b
none≢some h = cc

pub same→text_eq : {c d : Text} → c ≡ d → text_eq c d ≡ true
same→text_eq {c} e = rw (sym e) (text_eq_refl c)

pub true≢false : true ≢ false
true≢false h = cc

some_false≢true : some false ≢ some true
some_false≢true h = cc

module _ (parents : Parents) (base : Text) where
  climb-some :
      (fuel : ℕ) (c p : Text)
      → parents c ≡ some p
      → climb (suc fuel) parents c base
        ≡ (if text_eq p base then some true else climb fuel parents p base)
  unfolding climb
  climb-some fuel c p h = rw (h, climb) refl

  climb-none :
      (fuel : ℕ) (c : Text) → parents c ≡ none → climb (suc fuel) parents c base ≡ some false
  unfolding climb
  climb-none fuel c h = rw (h, climb) refl

  -- What the loop answers `true` to.
  Above : Text → Type 0
  Above c = (p : Text) × (parents c ≡ some p) × Inherits parents base p

  climb-found :
      (fuel : ℕ) (c p : Text)
      → parents c ≡ some p
      → text_eq p base ≡ true
      → climb (suc fuel) parents c base ≡ some true
  climb-found fuel c p e b = climb-some fuel c p e ∙ rw b refl

  climb-past :
      (fuel : ℕ) (c p : Text) {o : Option Bool}
      → parents c ≡ some p
      → text_eq p base ≡ false
      → climb (suc fuel) parents c base ≡ o
      → climb fuel parents p base ≡ o
  climb-past fuel c p e b h = sym (climb-some fuel c p e ∙ rw b refl) ∙ h

  climb-true : (fuel : ℕ) (c : Text) → climb fuel parents c base ≡ some true → Above c
  unfolding climb Above
  climb-true zero c h = cc
  climb-true (suc fuel) c h = elim (Option-cases (parents c)) [
    | inl e ↦ absurd (some_false≢true (sym (climb-none fuel c e) ∙ h))
    | inr pe ↦ elim (Bool-cases (text_eq pe.0 base)) [
      | inl b ↦ (pe.0, pe.1, itself (text_eq→≡ pe.0 base b))
      | inr b ↦
          let up = climb-true fuel pe.0 (climb-past fuel c pe.0 pe.1 b h) in
          (pe.0, pe.1, above up.0 up.1 up.2)
    ]
  ]

  climb-false :
      (fuel : ℕ) (c p : Text)
      → parents c ≡ some p
      → climb fuel parents c base ≡ some false
      → ¬ Inherits parents base p
  unfolding climb
  climb-false zero c p e h i = absurd (none≢some h)
  climb-false (suc fuel) c p e h (itself x) =
      some_false≢true (sym h ∙ climb-found fuel c p e (same→text_eq x))
  climb-false (suc fuel) c p e h (above q f i) = elim (Bool-cases (text_eq p base)) [
    | inl b ↦ some_false≢true (sym h ∙ climb-found fuel c p e b)
    | inr b ↦ climb-false fuel p q f (climb-past fuel c p e b h) i
  ]

  climb-total :
      (rank : Text → ℕ)
      → Acyclic parents rank
      → (fuel : ℕ) (c : Text) → rank c < fuel
      → (b : Bool) × (climb fuel parents c base ≡ some b)
  climb-total rank acyclic zero c enough = absurd (omega arith)
  climb-total rank acyclic (suc fuel) c enough = elim (Option-cases (parents c)) [
    | inl e ↦ (false, climb-none fuel c e)
    | inr pe ↦ elim (Bool-cases (text_eq pe.0 base)) [
      | inl b ↦ (true, climb-found fuel c pe.0 pe.1 b)
      | inr b ↦
          let up = climb-total rank acyclic fuel pe.0 (omega (arith, acyclic c pe.0 pe.1)) in
          (up.0, climb-some fuel c pe.0 pe.1 ∙ rw b up.1)
    ]
  ]

  -- The walk finds a class that stands above, however the other classes are linked.
  climb-reaches :
      (c p : Text)
      → parents c ≡ some p
      → Inherits parents base p
      → (fuel : ℕ) × (climb fuel parents c base ≡ some true)
  climb-reaches c p e (itself x) = (1, climb-found 0 c p e (same→text_eq x))
  climb-reaches c p e (above q f i) =
      let up = climb-reaches p q f i in
      elim (Bool-cases (text_eq p base)) [
        | inl b ↦ (1, climb-found 0 c p e b)
        | inr b ↦ (suc up.0, climb-some up.0 c p e ∙ rw b up.1)
      ]

  abbrev pub Answers : Text → Bool → Type 0
  Answers candidate true = Inherits parents base candidate
  Answers candidate false = ¬ Inherits parents base candidate

  subclass-other :
      (fuel : ℕ) (c : Text)
      → text_eq c base ≡ false
      → is_subclass_or_equal fuel parents c base ≡ climb fuel parents c base
  unfolding is_subclass_or_equal
  subclass-other fuel c h = rw h refl

  subclass-same :
      (fuel : ℕ) (c : Text)
      → text_eq c base ≡ true
      → is_subclass_or_equal fuel parents c base ≡ some true
  unfolding is_subclass_or_equal
  subclass-same fuel c h = rw h refl

  not-Inherits :
      (fuel : ℕ) (c : Text)
      → text_eq c base ≡ false
      → climb fuel parents c base ≡ some false
      → ¬ Inherits parents base c
  not-Inherits fuel c n h (itself x) = absurd (true≢false (sym (same→text_eq x) ∙ n))
  not-Inherits fuel c n h (above p f i) = climb-false fuel c p f h i

  -- An answer of `is_subclass_or_equal`, whatever the fuel, is right.
  pub subclass-Answers :
      (fuel : ℕ) (c : Text) (b : Bool)
      → is_subclass_or_equal fuel parents c base ≡ some b
      → Answers c b
  unfolding Above
  subclass-Answers fuel c true h = elim (Bool-cases (text_eq c base)) [
    | inl s ↦ itself (text_eq→≡ c base s)
    | inr n ↦ let up = climb-true fuel c (sym (subclass-other fuel c n) ∙ h) in above up.0 up.1 up.2
  ]
  subclass-Answers fuel c false h = elim (Bool-cases (text_eq c base)) [
    | inl s ↦ absurd (some_false≢true (sym h ∙ subclass-same fuel c s))
    | inr n ↦ not-Inherits fuel c n (sym (subclass-other fuel c n) ∙ h)
  ]

  pub answered :
      (rank : Text → ℕ)
      → Acyclic parents rank
      → (fuel : ℕ) (c : Text) → rank c < fuel
      → (b : Bool) × (is_subclass_or_equal fuel parents c base ≡ some b)
  answered rank acyclic fuel c enough = elim (Bool-cases (text_eq c base)) [
    | inl s ↦ (true, subclass-same fuel c s)
    | inr n ↦
        let up = climb-total rank acyclic fuel c enough in (up.0, subclass-other fuel c n ∙ up.1)
  ]

  Answers-iff : (b : Bool) (c : Text) → Answers c b → (b ≡ true) ↔ Inherits parents base c
  Answers-iff true c h = (λ _. h, λ _. refl)
  Answers-iff false c h = (λ e. absurd (true≢false (sym e)), λ i. absurd (h i))

  -- `is_subclass_or_equal` on classes without a cycle: enough fuel for the classes above `candidate`
  -- gives an answer, and it is `true` if and only if `base` is `candidate` or a class above it.
  pub is_subclass_or_equal_correct :
      (rank : Text → ℕ) (fuel : ℕ) (candidate : Text)
      → Acyclic parents rank
      → rank candidate < fuel
      → (b : Bool) × (is_subclass_or_equal fuel parents candidate base ≡ some b)
        × ((b ≡ true) ↔ Inherits parents base candidate)
  is_subclass_or_equal_correct rank fuel candidate acyclic enough =
      let (b, h) = answered rank acyclic fuel candidate enough in
      (b, h, Answers-iff b candidate (subclass-Answers fuel candidate b h))

  -- `is_subclass_or_equal` finds a class that is `candidate` or stands above it after finitely many
  -- steps, even where other classes form a cycle.
  pub is_subclass_or_equal-reaches :
      (candidate : Text)
      → Inherits parents base candidate
      → (fuel : ℕ) × (is_subclass_or_equal fuel parents candidate base ≡ some true)
  is_subclass_or_equal-reaches candidate (itself x) =
      (0, subclass-same 0 candidate (same→text_eq x))
  is_subclass_or_equal-reaches candidate (above p e i) =
      let (fuel, h) = climb-reaches candidate p e i in
      elim (Bool-cases (text_eq candidate base)) [
        | inl s ↦ (0, subclass-same 0 candidate s)
        | inr n ↦ (fuel, subclass-other fuel candidate n ∙ h)
      ]

  -- The classes of `In` extend one another without an end, and `base` is none of them.
  abbrev pub Loops : (Text → Bool) → Type 0
  Loops In =
      (c : Text)
      → In c ≡ true
      → (p : Text) × (parents c ≡ some p) × (In p ≡ true) × (text_eq c base ≡ false)

  climb-cycle :
      (In : Text → Bool)
      → Loops In
      → (fuel : ℕ) (c : Text) → In c ≡ true
      → climb fuel parents c base ≡ none
  unfolding climb
  climb-cycle In loops zero c h = refl
  climb-cycle In loops (suc fuel) c h =
      let up = loops c h in
      climb-some fuel c up.0 up.1 ∙ rw ((loops up.0 up.2).3) (climb-cycle In loops fuel up.0 up.2)

  -- Where classes extend one another in a cycle without `base`, no number of steps of
  -- `is_subclass_or_equal` from one of them reaches an answer.
  pub is_subclass_or_equal-cycle :
      (In : Text → Bool) (candidate : Text) (fuel : ℕ)
      → Loops In
      → In candidate ≡ true
      → is_subclass_or_equal fuel parents candidate base ≡ none
  is_subclass_or_equal-cycle In candidate fuel loops h =
      subclass-other fuel candidate (loops candidate h).3 ∙ climb-cycle In loops fuel candidate h
