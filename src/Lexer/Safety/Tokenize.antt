-- ===== src/Lexer/Safety/Tokenize.antt =====
-- crates/tinox-lexer/src/lib.rs, tokenize: the invariant of its loop, and what it returns.
use Prim.Native.Nat.{◌-◌}
use tinox.Prelude.{
  ℕ, zero, suc, ◌+◌, ◌≤◌, ◌<◌, ◌^◌, true, false, List, [], ◌∷◌, ◌++◌, All, All-append, ◌≡◌, ◌≢◌,
  refl, ◌∙◌, length, Text, arith, inl, inr, Bool-cases, ap,
}
use mathlib.Core.List.{concat-ne-nil, cons-ne-nil}
use tinox.Diag.{Error}
use tinox.Lexer.Token.{Token, is_eof, is_trivia}
use tinox.Lexer.Cursor.{Lexer, M, new, Outcome, ok, err, panic, out_of_fuel, rounds, wrap32, pure}
use tinox.Lexer.Numbers.{FloatParser}
use tinox.Lexer.Next.{next_token, on_token, token_loop, Lexed, lexed, tokenize}
use tinox.Lexer.Safety.Next.{Answers, Recovers, next_token-Answers}
use tinox.Lexer.Safety.Rules.{Sat, Sat-bind}

-- The spans lie one behind the other, from `lo` up to `hi`.
abbrev pub Ordered : {F : Type 0} → ℕ → List (Token F) → ℕ → Type 0
Ordered lo [] hi = lo ≤ hi
Ordered lo (t ∷ ts) hi =
    (lo ≤ t.span.start.offset)
    × (t.span.start.offset < t.span.end.offset)
    × Ordered t.span.end.offset ts hi

-- A token that the parser sees, other than the last.
abbrev pub IsSignificant : {F : Type 0} → Token F → Type 0
IsSignificant t = (is_trivia t.kind ≡ false) × (is_eof t.kind ≡ false)

Ordered-concat :
    {F : Type 0} (ts : List (Token F)) (t : Token F) (lo hi : ℕ)
    → Ordered lo ts hi
    → hi ≤ t.span.start.offset
    → t.span.start.offset < t.span.end.offset
    → Ordered lo (ts ++ t ∷ []) t.span.end.offset
Ordered-concat [] t lo hi h k m = (omega arith, m, omega arith)
Ordered-concat (s ∷ ts) t lo hi h k m = (h.0, h.1, Ordered-concat ts t _ hi h.2 k m)

Ordered-mono :
    {F : Type 0} (ts : List (Token F)) (lo hi top : ℕ)
    → Ordered lo ts hi
    → hi ≤ top
    → Ordered lo ts top
Ordered-mono [] lo hi top h k = omega arith
Ordered-mono (s ∷ ts) lo hi top h k = (h.0, h.1, Ordered-mono ts _ hi top h.2 k)

module _ {F : Type 0} (input : Text) where
  -- The whole loop's result: significant tokens in order, then one `Eof`, which stands at the end
  -- of the input if there was no error.
  pub record Complete (ts : List (Token F)) (es : List Error) : Type 0 where
    pub body : List (Token F)
    pub last : Token F
    pub split : ts ≡ body ++ last ∷ []
    pub significant : All IsSignificant body
    pub ordered : Ordered 0 body (length input)
    pub last_eof : is_eof last.kind ≡ true
    pub at_end : es ≡ [] → last.span.start.offset ≡ length input

  -- What holds between the rounds.
  record LoopInv (ts : List (Token F)) (es : List Error) (l : Lexer) : Type 0 where
    same_chars : l.chars ≡ input
    reached : ℕ
    reached_le : reached ≤ length input
    reached_pos : reached ≤ l.pos
    ordered : Ordered 0 ts reached
    significant : All IsSignificant ts
    in_bounds : es ≡ [] → l.pos ≤ length input

  module _ (small : length input < 2 ^ 32) where
    push-LoopInv :
        (ts : List (Token F)) (es : List Error) (l : Lexer) (t : Token F) (e : Lexer)
        → LoopInv ts es l
        → Answers l t e
        → is_eof t.kind ≡ false
        → is_trivia t.kind ≡ false
        → LoopInv (ts ++ t ∷ []) es e
    unfolding wrap32
    push-LoopInv ts es l t e h a n v =
        let moved = a.token_forward n in
        let len = ap length h.same_chars in
        let starts : t.span.start.offset ≡ l.pos = omega (arith, a.from_pos) in
        let ends : t.span.end.offset ≡ e.pos = omega (arith, a.to_pos) in
        record {
          same_chars = a.same_chars ∙ h.same_chars;
          reached = t.span.end.offset;
          reached_le = omega arith;
          reached_pos = omega arith;
          ordered = Ordered-concat ts t _ _ h.ordered (omega (arith, h.reached_pos)) (omega arith);
          significant = All-append IsSignificant ts (t ∷ []) h.significant ((v, n), tt);
          in_bounds = λ _. omega arith;
        }

    skip-LoopInv :
        (ts : List (Token F)) (es : List Error) (l : Lexer) (t : Token F) (e : Lexer)
        → LoopInv ts es l
        → Answers l t e
        → is_eof t.kind ≡ false
        → LoopInv ts es e
    skip-LoopInv ts es l t e h a n =
        let moved = a.token_forward n in
        let len = ap length h.same_chars in
        record {
          same_chars = a.same_chars ∙ h.same_chars;
          reached = h.reached;
          reached_le = h.reached_le;
          reached_pos = omega (arith, h.reached_pos);
          ordered = h.ordered;
          significant = h.significant;
          in_bounds = λ _. omega arith;
        }

    error-LoopInv :
        (ts : List (Token F)) (es : List Error) (l : Lexer) (x : Error) (e : Lexer)
        → LoopInv ts es l
        → Recovers l e
        → LoopInv ts (es ++ x ∷ []) (record e { pos = e.pos + 1 })
    error-LoopInv ts es l x e h a = record {
      same_chars = a.same_chars ∙ h.same_chars;
      reached = h.reached;
      reached_le = h.reached_le;
      reached_pos = omega (arith, h.reached_pos, a.forward);
      ordered = h.ordered;
      significant = h.significant;
      in_bounds = λ n. absurd (concat-ne-nil x es n);
    }

    finish-Complete :
        (ts : List (Token F)) (es : List Error) (l : Lexer) (t : Token F) (e : Lexer)
        → LoopInv ts es l
        → Answers l t e
        → is_eof t.kind ≡ true
        → Complete (ts ++ t ∷ []) es
    unfolding wrap32
    finish-Complete ts es l t e h a z = record {
      body = ts;
      last = t;
      split = refl;
      significant = h.significant;
      ordered = Ordered-mono ts _ _ _ h.ordered h.reached_le;
      last_eof = z;
      at_end = λ n.
          let len = ap length h.same_chars in
          let inside = h.in_bounds n in let ended = a.at_end z in omega (arith, a.from_pos);
    }

    -- One round: the loop ends here, or goes on with fewer characters left.
    round-Complete :
        (l : Lexer) (ts : List (Token F)) (es : List Error)
        → LoopInv ts es l
        → (again : List (Token F) → List Error → M (List (Token F) × List Error))
        → ((us : List (Token F)) (xs : List Error) (e : Lexer)
            → LoopInv us xs e
            → l.pos < e.pos
            → l.pos < length input
            → Sat (again us xs e) (λ r _. Complete r.0 r.1) (λ _. ⊥))
        → (r : Outcome (Token F) × Lexer) → Sat r (Answers l) (Recovers l)
        → Sat (on_token r ts es again (λ us xs. pure (us, xs))) (λ r _. Complete r.0 r.1) (λ _. ⊥)
    unfolding on_token
    round-Complete l ts es h again k (ok t, e) s = elim (Bool-cases (is_eof t.kind)) [
      | inl z ↦ rw z (record { holds = finish-Complete ts es l t e h s.holds z })
      | inr n ↦
          let moved = (s.holds).token_forward n in
          let inside : l.pos < length input = omega (arith, ap length h.same_chars) in
          rw n (elim (Bool-cases (is_trivia t.kind)) [
            | inl v ↦ rw v (k ts es e (skip-LoopInv ts es l t e h s.holds n) moved.0 inside)
            | inr v ↦
                rw v (k (ts ++ t ∷ []) es e (push-LoopInv ts es l t e h s.holds n v) moved.0 inside)
          ])
    ]
    round-Complete l ts es h again k (err x, e) s =
        k ts (es ++ x ∷ []) (record e { pos = e.pos + 1 }) (error-LoopInv ts es l x e h s.holds)
          (omega (arith, (s.holds).forward))
          (omega (arith, (s.holds).inside, ap length h.same_chars))
    round-Complete l ts es h again k (panic, e) s = absurd s.holds
    round-Complete l ts es h again k (out_of_fuel, e) s = absurd s.holds

    token_loop-Complete :
        (floats : FloatParser F) (fuel : ℕ) (ts : List (Token F)) (es : List Error) (l : Lexer)
        → LoopInv ts es l
        → length input - l.pos < fuel
        → Sat (token_loop floats fuel ts es l) (λ r _. Complete r.0 r.1) (λ _. ⊥)
    unfolding token_loop
    token_loop-Complete floats zero ts es l h m = elim m [ ]
    token_loop-Complete floats (suc fuel) ts es l h m =
        round-Complete l ts es h (token_loop floats fuel)
          (λ us xs e inv moved inside. token_loop-Complete floats fuel us xs e inv (omega arith))
          (next_token floats l) (next_token-Answers floats l)

-- What `Lexer::new(input).tokenize()` returns: with no error, all tokens in order and `Eof` at the
-- end of the input; otherwise the errors, one at least.
abbrev pub Returns : {F : Type 0} → Text → Lexed F → Type 0
Returns input (Lexed.tokens ts) = Complete input ts []
Returns input (Lexed.errors es) = es ≢ []

Returns-lexed :
    {F : Type 0} (input : Text) (ts : List (Token F)) (es : List Error)
    → Complete input ts es
    → Returns input (lexed (ts, es))
Returns-lexed input ts [] h = h
Returns-lexed input ts (e ∷ es) h = cons-ne-nil e es

-- `tokenize` on any input shorter than 2^32 characters neither panics nor runs out of rounds. It
-- returns either errors, one at least; or significant tokens (no trivia, no `Eof`) whose spans
-- follow one another without overlap inside the input, and behind them one `Eof` token whose
-- offset is the input's length.
pub tokenize_total :
    {F : Type 0} (floats : FloatParser F) (input : Text)
    → length input < 2 ^ 32
    → Sat (tokenize floats (new input)) (λ r _. Returns input r) (λ _. ⊥)
unfolding tokenize new
tokenize_total floats input small =
    Sat-bind (token_loop floats (suc (rounds (new input))) [] [] (new input)) _
      (token_loop-Complete input small floats (suc (rounds (new input))) [] [] (new input)
        (record {
          same_chars = refl;
          reached = 0;
          reached_le = omega arith;
          reached_pos = omega arith;
          ordered = omega arith;
          significant = tt;
          in_bounds = λ _. omega arith;
        })
        (omega arith))
      (λ _ h. h) (λ (ts, es) e h. record { holds = Returns-lexed input ts es h })
