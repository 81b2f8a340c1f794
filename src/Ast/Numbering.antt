-- ===== src/Ast/Numbering.antt =====
-- What it means that a traversal numbers a tree, and the rules for its steps.
use tinox.Prelude.{
  ℕ, zero, suc, ◌+◌, ◌<◌, List, [], ◌∷◌, ◌++◌, length, length-append, ◌≡◌, refl, sym, ap, ◌∙◌,
  arith,
}
use tinox.Lexer.Cursor.{u32_mod}
use tinox.Ast.NodeIds.{Numberer, ◌>>=◌, pure}

-- A tree: the ids of all expressions in it, from left to right, and the tree without them.
pub record Tree (A : Type 0) : Type 0 where
  pub ids : A → List ℕ
  pub bare : A → A

-- `k` numbers from `n` on.
abbrev pub consecutive : ℕ → ℕ → List ℕ
consecutive n zero = []
consecutive n (suc k) = n ∷ consecutive (suc n) k

-- From `n` on, `m` gives the expressions of `a` the next numbers in order, and changes nothing else.
pub record NumbersFrom {A : Type 0} ⦃t : Tree A⦄ (a : A) (m : Numberer A) (n : ℕ) : Type 0 where
  pub next : (m n).1 ≡ n + length (t.ids a)
  pub numbers : t.ids (m n).0 ≡ consecutive n (length (t.ids a))
  pub same : t.bare (m n).0 ≡ t.bare a

abbrev pub Numbers : {A : Type 0} ⦃t : Tree A⦄ → A → Numberer A → Type 0
Numbers ⦃t⦄ a m = (n : ℕ) → n + length (t.ids a) < u32_mod → NumbersFrom a m n

consecutive-append :
    (n j k m l : ℕ) → m ≡ n + j → l ≡ j + k → consecutive n j ++ consecutive m k ≡ consecutive n l
consecutive-append n zero k m l em el =
    let start : m ≡ n = omega arith in let count : l ≡ k = omega arith in rw (start, count) refl
consecutive-append n (suc j) k m zero em el = absurd (omega arith)
consecutive-append n (suc j) k m (suc l) em el =
    ap (λ ns. n ∷ ns) (consecutive-append (suc n) j k m l (omega arith) (omega arith))

-- A node without expressions of its own.
pub Numbers-leaf : {A : Type 0} ⦃t : Tree A⦄ (a : A) → t.ids a ≡ [] → Numbers a (pure a)
Numbers-leaf a e n h = record {
  next = omega (arith, ap length e);
  numbers = e ∙ rw e refl;
  same = refl;
}

-- A node over one part.
pub Numbers-one :
    {A B : Type 0} ⦃t : Tree A⦄ ⦃u : Tree B⦄ (a : A) (mk : A → B) (m : Numberer A)
    → ((x : A) → u.ids (mk x) ≡ t.ids x)
    → ((x : A) → u.bare (mk x) ≡ mk (t.bare x))
    → Numbers a m
    → Numbers (mk a) (m >>= λ x. pure (mk x))
Numbers-one a mk m ids bare h n small =
    let size = ap length (ids a) in
    let r = h n (omega arith) in
    record {
      next = omega (arith, r.next);
      numbers = ids (m n).0 ∙ r.numbers ∙ ap (consecutive n) (sym size);
      same = bare (m n).0 ∙ ap mk r.same ∙ sym (bare a);
    }

instance abbrev pub pair_tree : {A B : Type 0} ⦃t : Tree A⦄ ⦃u : Tree B⦄ → Tree (A × B)
pair_tree ⦃t⦄ ⦃u⦄ = record {
  ids = λ p. t.ids p.0 ++ u.ids p.1;
  bare = λ p. (t.bare p.0, u.bare p.1);
}

module _ {A B : Type 0} ⦃t : Tree A⦄ ⦃u : Tree B⦄ where
  -- One part after another.
  pub Numbers-pair :
      (a : A) (b : B) (m : Numberer A) (k : Numberer B)
      → Numbers a m
      → Numbers b k
      → Numbers {A = A × B} (a, b) (m >>= λ x. k >>= λ y. pure (x, y))
  Numbers-pair a b m k ha hb n small =
      let sizes = length-append (t.ids a) (u.ids b) in
      let r = ha n (omega arith) in
      let s = hb (m n).1 (omega (arith, r.next)) in
      record {
        next = omega (arith, r.next, s.next);
        numbers =
            ap (λ xs. xs ++ u.ids (k (m n).1).0) r.numbers
            ∙ ap (λ xs. consecutive n (length (t.ids a)) ++ xs) s.numbers
            ∙ consecutive-append n (length (t.ids a)) (length (u.ids b)) (m n).1 _ r.next sizes;
        same = λ i. (r.same i, s.same i);
      }
