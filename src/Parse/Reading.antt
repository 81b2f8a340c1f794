-- ===== src/Parse/Reading.antt =====
-- crates/tinox-parser/src/parser.rs: the levels of binary operators read what the grammar writes.
use tinox.Prelude.{
  ℕ, zero, suc, ◌≤◌, ◌<◌, Bool, true, false, ◌==◌, ==→≡, lt→ltb, Option, none, some, List, [], ◌∷◌,
  ◌++◌, append_assoc, length, ◌≡◌, refl, subst, ap, ◌∙◌, arith, inl, inr, Bool-cases, length-append,
}
use tinox.Lexer.Token.{TokenKind, Token}
use tinox.Ast.Types.{BinaryOp}
use tinox.Ast.Expr.{Expr}
use tinox.Parse.{Parser, Parsed, peek, bump, unread}
use tinox.Parse.Unread.{peek-unread, peek_end, unread-bump}
use tinox.Parse.Ladder.{binary_expr, level_loop, parse_level, parse_or_expr}
use tinox.Parse.Grammar.{
  precedence, operator_of, at_level, Tree, Operands, tree_tokens, tree_expr, Fits, Followed,
  is_below, binds_below, Reads, multiplicative_op_lem, additive_op_lem, shift_op_lem,
  relational_op_lem, equality_op_lem, bitwise_and_op_lem, bitwise_xor_op_lem, bitwise_or_op_lem,
  and_op_lem, or_op_lem,
}

-- A level's loop that goes on: it has the expression `e` so far, and `rest` is unread.
record Spine {F : Type 0} (ops : TokenKind F → Option BinaryOp) (next : Parser F → Parsed F)
    (result : Parsed F) (e : Expr F) (rest : List (Token F)) : Type 0 where
  state : Parser F
  rounds : ℕ
  enough : length rest < rounds
  left : unread state ≡ rest
  ran : result ≡ level_loop ops next rounds e state

no_higher : (op : BinaryOp) → 11 ≤ precedence op → ⊥
no_higher BinaryOp.or h = omega arith
no_higher _ h = omega arith

apart : (p n : ℕ) → n ≤ p → (p == n) ≡ false → suc n ≤ p
apart p n h g = ground arith

below_suc : (a b r k : ℕ) → a ≤ b → suc b < r → r ≡ suc k → a < k
below_suc a b r k h g e = omega arith

length-under {ℓ} : {A : Type ℓ} (xs ys : List A) → length ys ≤ length (xs ++ ys)
length-under xs ys = omega (arith, length-append xs ys)

suc-of : (m n : ℕ) → m < n → (k : ℕ) × (n ≡ suc k)
suc-of m zero h = absurd (omega arith)
suc-of m (suc k) h = (k, refl)

binds_below-more :
    (n : ℕ) (x : Option BinaryOp) → binds_below n x ≡ true → binds_below (suc n) x ≡ true
binds_below-more n none h = refl
binds_below-more n (some op) h = ground arith

binds_below-none : (n : ℕ) (x : Option BinaryOp) → binds_below n x ≡ true → at_level n x ≡ none
binds_below-none n none h = refl
binds_below-none n (some op) h = ground arith

at_own : (n : ℕ) (op : BinaryOp) → precedence op ≡ n → at_level n (some op) ≡ some op
at_own n op h = ground arith

-- The equations of a level's loop, by the next token.
module _ {F : Type 0} (ops : TokenKind F → Option BinaryOp) (next : Parser F → Parsed F)
    (s : Parser F) where
  loop_stop :
      (k : ℕ) (e : Expr F)
      → ops (peek s).kind ≡ none
      → level_loop ops next (suc k) e s ≡ Parsed.ok e s
  unfolding level_loop
  loop_stop k e h = rw (h, level_loop) refl

  loop_step :
      (k : ℕ) (e rhs : Expr F) (op : BinaryOp) (s' : Parser F)
      → ops (peek s).kind ≡ some op
      → next (bump s) ≡ Parsed.ok rhs s'
      → level_loop ops next (suc k) e s ≡ level_loop ops next k (binary_expr op e rhs) s'
  unfolding level_loop
  loop_step k e rhs op s' h g = rw (h, level_loop) (rw g refl)

is_below_more :
    {F : Type 0} (n : ℕ) (ts : List (Token F)) → is_below n ts ≡ true → is_below (suc n) ts ≡ true
is_below_more n [] h = refl
is_below_more n (t ∷ ts) h = binds_below-more n (operator_of t.kind) h

module _ {F : Type 0} {A : Type 0} (o : Operands F A) (ends : List (Token F) → Bool) where
  -- What a level reads: every tree that fits it, up to a token that is no operator of the level or of
  -- a higher one.
  abbrev pub ReadsLevel : ℕ → (Parser F → Parsed F) → Type 0
  ReadsLevel n p =
      (t : Tree F A) (s : Parser F) (rest : List (Token F))
      → Fits n t
      → is_below n rest ≡ true
      → Followed o ends t rest
      → unread s ≡ tree_tokens o t ++ rest
      → Reads (p s) (tree_expr o t) rest

  module _ (n : ℕ) (ops : TokenKind F → Option BinaryOp) (next : Parser F → Parsed F)
      (ops-lem : (k : TokenKind F) → ops k ≡ at_level n (operator_of k))
      (lower : ReadsLevel (suc n) next) where
    first-Spine :
        (s : Parser F) (e : Expr F) (rest : List (Token F))
        → Reads (next s) e rest
        → Spine ops next (parse_level ops next s) e rest
    unfolding parse_level
    first-Spine s e rest r = record {
      state = r.state;
      rounds = suc (length (unread r.state));
      enough = rw r.left (omega arith);
      left = r.left;
      ran = rw (r.ran, parse_level) refl;
    }

    step-Spine :
        (tok : Token F) (op : BinaryOp) (result : Parsed F) (lhs rhs : Expr F)
        (ts rest : List (Token F))
        → operator_of tok.kind ≡ some op
        → precedence op ≡ n
        → length rest ≤ length ts
        → (r : Spine ops next result lhs (tok ∷ ts)) → Reads (next (bump r.state)) rhs rest
        → Spine ops next result (binary_expr op lhs rhs) rest
    step-Spine tok op result lhs rhs ts rest is_op here shorter r read =
        let (k, is_suc) = suc-of (suc (length ts)) r.rounds r.enough in
        let is_level =
          ap (λ t. ops t.kind) (peek-unread r.state r.left)
          ∙ (ops-lem tok.kind ∙ (ap (at_level n) is_op ∙ at_own n op here)) in
        record {
          state = read.state;
          rounds = k;
          enough = below_suc (length rest) (length ts) r.rounds k shorter r.enough is_suc;
          left = read.left;
          ran =
              r.ran
              ∙ rw is_suc (loop_step ops next r.state k lhs rhs op read.state is_level read.ran);
        }

    spine :
        (t : Tree F A) (s : Parser F) (rest : List (Token F))
        → Fits n t
        → is_below (suc n) rest ≡ true
        → Followed o ends t rest
        → unread s ≡ tree_tokens o t ++ rest
        → Spine ops next (parse_level ops next s) (tree_expr o t) rest
    spine (Tree.operand a) s rest f b e h =
        first-Spine s (o.meant a) rest (lower (Tree.operand a) s rest f b e h)
    spine (Tree.binary tok op l r) s rest f b e h = elim (Bool-cases (precedence op == n)) [
      | inl here ↦
          let at = ==→≡ (precedence op) n here in
          let ts = tree_tokens o r ++ rest in
          let left =
            spine l s (tok ∷ ts) (subst (λ m. Fits m l) at f.2)
              (ap (binds_below (suc n)) f.1 ∙ lt→ltb (precedence op) (suc n) (omega arith)) e.0
              (h ∙ append_assoc (tree_tokens o l) (tok ∷ tree_tokens o r) rest) in
          step-Spine tok op _ (tree_expr o l) (tree_expr o r) ts rest f.1 at
            (length-under (tree_tokens o r) rest) left
            (lower r (bump left.state) rest (subst (λ m. Fits (suc m) r) at f.3) b e.1
              (unread-bump left.state left.left))
      | inr above ↦ first-Spine s _ rest (
          lower (Tree.binary tok op l r) s rest (apart (precedence op) n f.0 above, f.1, f.2, f.3) b
            e h)
    ]

    stop :
        (state : Parser F) (rest : List (Token F))
        → unread state ≡ rest
        → is_below n rest ≡ true
        → ops (peek state).kind ≡ none
    stop state [] h b = rw (peek_end state h) (ops-lem TokenKind.eof)
    stop state (t ∷ rest) h b =
        rw (peek-unread state h) (ops-lem t.kind ∙ binds_below-none n (operator_of t.kind) b)

    pub level-reads : ReadsLevel n (parse_level ops next)
    level-reads t s rest f b e h =
        let r = spine t s rest f (is_below_more n rest b) e h in
        let (k, is_suc) = suc-of (length rest) r.rounds r.enough in
        record {
          state = r.state;
          left = r.left;
          ran =
              r.ran
              ∙ rw is_suc
                  (loop_stop ops next r.state k (tree_expr o t) (stop r.state rest r.left b));
        }

module _ {F : Type 0} {A : Type 0} (operand : Parser F → Parsed F) (o : Operands F A)
    (ends : List (Token F) → Bool) where
  -- Above the last level there are operands only.
  lowest :
      ((a : A) (s' : Parser F) (rest' : List (Token F))
        → ends rest' ≡ true
        → unread s' ≡ o.written a ++ rest'
        → Reads (operand s') (o.meant a) rest')
      → ReadsLevel o ends 11 operand
  lowest reads (Tree.operand a) s rest f b e h = reads a s rest e h
  lowest reads (Tree.binary tok op l r) s rest f b e h = absurd (no_higher op f.0)

  -- `parse_or_expr` over operands that `operand` reads wherever `ends` holds of the tokens behind
  -- them: from the tokens of an expression of operands and binary operators that needs no parentheses
  -- by the table of precedences, operators of one level leaning to the left, and in which `ends` holds
  -- behind every operand, it returns this expression and leaves the tokens behind it unread.
  pub parse_or_expr-Reads :
      (t : Tree F A) (s : Parser F) (rest : List (Token F))
      → ((a : A) (s' : Parser F) (rest' : List (Token F))
          → ends rest' ≡ true
          → unread s' ≡ o.written a ++ rest'
          → Reads (operand s') (o.meant a) rest')
      → Fits 1 t
      → is_below 1 rest ≡ true
      → Followed o ends t rest
      → unread s ≡ tree_tokens o t ++ rest
      → Reads (parse_or_expr operand s) (tree_expr o t) rest
  unfolding parse_or_expr
  parse_or_expr-Reads t s rest reads =
      level-reads o ends 1 _ _ or_op_lem
        (level-reads o ends 2 _ _ and_op_lem (
          level-reads o ends 3 _ _ bitwise_or_op_lem (
            level-reads o ends 4 _ _ bitwise_xor_op_lem (
              level-reads o ends 5 _ _ bitwise_and_op_lem (
                level-reads o ends 6 _ _ equality_op_lem (
                  level-reads o ends 7 _ _ relational_op_lem (
                    level-reads o ends 8 _ _ shift_op_lem (
                      level-reads o ends 9 _ _ additive_op_lem
                        (level-reads o ends 10 _ _ multiplicative_op_lem (lowest reads))))))))))
        t s rest
