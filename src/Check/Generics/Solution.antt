-- ===== src/Check/Generics/Solution.antt =====
-- crates/tinox-typecheck/src/lib.rs: `unify_param` recovers the type arguments of a call.
use tinox.Prelude.{
  true, false, none, some, List, Text, text_eq, text_eq_refl, text_eq→≡, ◌≡◌, ◌≢◌, if◌then◌else◌,
  refl, sym, ◌∙◌, ap, inl, inr, Bool-cases,
}
use tinox.Check.ValueType.{ValueType, ValueTypes}
use tinox.Check.Compatible.{mentions}
use tinox.Check.Generics.{
  Bindings, or_insert, is_any, unify_param, unify_params, substitute_bindings, substitute_all,
}
use tinox.Check.Generics.Inference.{
  Extends, Solves, unify-parameter, unify-named, Option-cases, or_insert-Extends, kept_all,
}

-- What `unify_param` leaves after it has met the type `substitute_bindings p solution` where `p` is
-- expected: bindings of the solution, and enough of them for `p`.
record Recovers (solution : Bindings) (p : ValueType) (b : Bindings) : Type 0 where
  agree : Extends b solution
  cover :
      (c : Bindings)
      → Extends b c
      → Extends c solution
      → substitute_bindings p c ≡ substitute_bindings p solution

record RecoversAll (solution : Bindings) (ps : ValueTypes) (b : Bindings) : Type 0 where
  agree_all : Extends b solution
  cover_all :
      (c : Bindings)
      → Extends b c
      → Extends c solution
      → substitute_all ps c ≡ substitute_all ps solution

none≢some : {v : ValueType} → none ≢ some v
none≢some h = cc

-- A name that the solution leaves free is free in its parts.
free-part : (solution c : Bindings) (n : Text) → solution n ≡ none → Extends c solution → c n ≡ none
free-part solution c n h e = elim (Option-cases (c n)) [
  | inl k ↦ k
  | inr b ↦ absurd (none≢some (sym h ∙ e n b.0 b.1))
]

pub substitute-free :
    (c : Bindings) (n : Text) (args : ValueTypes)
    → c n ≡ none
    → substitute_bindings (ValueType.named n args) c ≡ ValueType.named n (substitute_all args c)
unfolding substitute_bindings
substitute-free c n args h = rw (h, substitute_bindings) refl

pub substitute-bound :
    (c : Bindings) (n : Text) (args : ValueTypes) (v : ValueType)
    → c n ≡ some v
    → substitute_bindings (ValueType.named n args) c ≡ v
unfolding substitute_bindings
substitute-bound c n args v h = rw (h, substitute_bindings) refl

or_insert-own :
    (n : Text) (v : ValueType) (b : Bindings) → (w : ValueType) × (or_insert n v b n ≡ some w)
or_insert-own n v b = elim (Option-cases (b n)) [
  | inl h ↦ (v, rw (h, or_insert) (rw (text_eq_refl n) refl))
  | inr h ↦ (h.0, or_insert-Extends n v b n h.0 h.1)
]

or_insert-new :
    (n : Text) (v : ValueType) (b : Bindings) (m : Text)
    → b m ≡ none
    → or_insert n v b m ≡ (if text_eq n m then some v else none)
or_insert-new n v b m h = rw (h, or_insert) refl

or_insert-agree :
    (n : Text) (v : ValueType) (b solution : Bindings)
    → solution n ≡ some v
    → Extends b solution
    → Extends (or_insert n v b) solution
or_insert-agree n v b solution s e m w h = elim (Option-cases (b m)) [
  | inr k ↦ e m k.0 k.1 ∙ (sym (or_insert-Extends n v b m k.0 k.1) ∙ h)
  | inl k ↦ elim (Bool-cases (text_eq n m)) [
    | inl t ↦
        ap solution (sym (text_eq→≡ n m t)) ∙ (s ∙ (sym (or_insert-new n v b m k ∙ rw t refl) ∙ h))
    | inr t ↦ absurd (none≢some (sym (or_insert-new n v b m k ∙ rw t refl) ∙ h))
  ]
]

-- A type parameter that is met with its solution.
Recovers-parameter :
    (solution : Bindings) (n : Text) (args : ValueTypes) (v : ValueType) (tparams : List Text)
    (b : Bindings)
    → mentions tparams n ≡ true
    → solution n ≡ some v
    → is_any v ≡ false
    → Extends b solution
    → Recovers solution (ValueType.named n args) (
        unify_param
          (ValueType.named n args)
          (substitute_bindings (ValueType.named n args) solution)
          tparams
          b)
Recovers-parameter solution n args v tparams b m s a e = rw (substitute-bound solution n args v s) (
    rw (unify-parameter n args v tparams b m) (
      rw a (record {
        agree = or_insert-agree n v b solution s e;
        cover = λ c. λ f. λ g.
            let (w, own) = or_insert-own n v b in
            let bound = f n w own in
            substitute-bound c n args w bound
            ∙ sym (substitute-bound solution n args w (g n w bound));
      })))

-- A named type that is no type parameter is left to its arguments.
Recovers-named :
    (solution : Bindings) (n : Text) (args : ValueTypes) (tparams : List Text) (b : Bindings)
    → mentions tparams n ≡ false
    → solution n ≡ none
    → RecoversAll solution args (unify_params args (substitute_all args solution) tparams b)
    → Recovers solution (ValueType.named n args) (
        unify_param
          (ValueType.named n args)
          (substitute_bindings (ValueType.named n args) solution)
          tparams
          b)
Recovers-named solution n args tparams b m h r = rw (substitute-free solution n args h) (
    rw (unify-named n args (substitute_all args solution) tparams b m) (record {
      agree = r.agree_all;
      cover = λ c. λ f. λ g.
          substitute-free c n args (free-part solution c n h g)
          ∙ (ap (ValueType.named n) (r.cover_all c f g) ∙ sym (substitute-free solution n args h));
    }))

mutual
  unfolding unify_param substitute_bindings

  recovers :
      (solution : Bindings) (tparams : List Text) (p : ValueType) (b : Bindings)
      → Solves tparams solution
      → Extends b solution
      → Recovers solution p (unify_param p (substitute_bindings p solution) tparams b)
  recovers solution tparams (ValueType.named n args) b s e = elim (s n) [
    | inl k ↦ Recovers-parameter solution n args k.1.0 tparams b k.0 k.1.1 k.1.2 e
    | inr k ↦
        Recovers-named solution n args tparams b k.0 k.1 (recovers_all solution tparams args b s e)
  ]
  recovers solution tparams (ValueType.array p) b s e =
      let r = recovers solution tparams p b s e in
      record { agree = r.agree; cover = λ c. λ f. λ g. ap ValueType.array (r.cover c f g) }
  recovers solution tparams (ValueType.map p) b s e =
      let r = recovers solution tparams p b s e in
      record { agree = r.agree; cover = λ c. λ f. λ g. ap ValueType.map (r.cover c f g) }
  recovers solution tparams (ValueType.nullable p) b s e =
      let r = recovers solution tparams p b s e in
      record { agree = r.agree; cover = λ c. λ f. λ g. ap ValueType.nullable (r.cover c f g) }
  recovers solution tparams _ b s e = record { agree = e; cover = λ c. λ f. λ g. refl }

  recovers_all :
      (solution : Bindings) (tparams : List Text) (ps : ValueTypes) (b : Bindings)
      → Solves tparams solution
      → Extends b solution
      → RecoversAll solution ps (unify_params ps (substitute_all ps solution) tparams b)
  recovers_all solution tparams ValueTypes.nil b s e = record {
    agree_all = e;
    cover_all = λ c. λ f. λ g. refl;
  }
  recovers_all solution tparams (ValueTypes.cons p ps) b s e =
      let first = recovers solution tparams p b s e in
      let b' = unify_param p (substitute_bindings p solution) tparams b in
      let rest = recovers_all solution tparams ps b' s first.agree in
      record {
        agree_all = rest.agree_all;
        cover_all = λ c. λ f. λ g. λ i.
            ValueTypes.cons
              (first.cover c
                (λ n. λ v. λ h. f n v (kept_all ps (substitute_all ps solution) tparams b' n v h)) g
                i)
              (rest.cover_all c f g i);
      }

-- `unify_param` and `substitute_bindings` of a parameter's type `param`, where the argument's type is
-- the instance of `param` that a solution gives, each type parameter having a type other than `Any`
-- in it: from the bindings inferred, substitution makes of `param` the argument's type again.
pub unify_param-recovers :
    (tparams : List Text) (solution : Bindings) (param : ValueType)
    → Solves tparams solution
    → substitute_bindings param
        (unify_param param (substitute_bindings param solution) tparams (λ _. none))
      ≡ substitute_bindings param solution
unify_param-recovers tparams solution param s =
    let r = recovers solution tparams param (λ _. none) s (λ n. λ v. λ h. absurd (none≢some h)) in
    r.cover _ (λ n. λ v. λ h. h) r.agree
