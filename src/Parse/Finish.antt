-- ===== src/Parse/Finish.antt =====
-- crates/tinox-parser/src/parser.rs: `synchronize` moves on, and `parse` ends.
use tinox.Prelude.{
  ℕ, zero, suc, ◌+◌, ◌≤◌, ◌<◌, ◌⊎◌, leb, ltb, lt→ltb, ltb→lt, Bool, true, false, ◌||◌, some, List,
  [], ◌∷◌, ◌++◌, length, drop, ◌≡◌, ◌≢◌, refl, sym, subst, ◌∙◌, arith, inl, inr, Bool-cases,
}
use tinox.Diag.{Error}
use tinox.Ast.Decl.{Decl}
use tinox.Parse.{Parser, peek, bump, unread}
use tinox.Parse.Recovery.{
  is_at_end, Recovery, recovery_of, sync_loop, synchronize, ParsedDecl, ParsedFile, finish,
  parse_loop, parse,
}

leb→lt : (a b : ℕ) → leb a b ≡ false → b < a
leb→lt a b h = ground arith

true≢false : true ≢ false
true≢false h = cc

or-left : (a b : Bool) → a || b ≡ false → a ≡ false
or-left false b h = refl
or-left true b h = cc

Recovery-cases :
    (x : Recovery) → (x ≡ Recovery.past_semicolon) ⊎ ((x ≡ Recovery.at_item) ⊎ (x ≡ Recovery.skip))
Recovery-cases Recovery.past_semicolon = inl refl
Recovery-cases Recovery.at_item = inr (inl refl)
Recovery-cases Recovery.skip = inr (inr refl)

drop_lt :
    {A : Type 0} (xs : List A) (i : ℕ)
    → i < length xs
    → length (drop (suc i) xs) < length (drop i xs)
drop_lt [] i h = absurd (omega arith)
drop_lt (x ∷ xs) zero h = omega arith
drop_lt (x ∷ xs) (suc i) h = drop_lt xs i (omega arith)

module _ {F : Type 0} where
  inside : (s : Parser F) → is_at_end s ≡ false → s.pos < length s.tokens
  unfolding is_at_end
  inside s h = leb→lt (length s.tokens) s.pos (or-left _ _ h)

  bump-inside : (s : Parser F) → s.pos < length s.tokens → bump s ≡ record s { pos = s.pos + 1 }
  unfolding bump
  bump-inside s h = rw (lt→ltb s.pos (length s.tokens) h, bump) refl

  pub bump_lt : (s : Parser F) → is_at_end s ≡ false → length (unread (bump s)) < length (unread s)
  bump_lt s h =
      let i = inside s h in
      subst (λ (r : Parser F). length (unread r) < length (unread s)) (sym (bump-inside s i))
        (subst (λ n. length (drop n s.tokens) < length (unread s)) {x = suc s.pos} (omega arith)
          (drop_lt s.tokens s.pos i))

  -- Where `synchronize` may stop: at the end, further on, or at an item behind the start.
  Stops : ℕ → Parser F → Parser F → Type 0
  Stops start s s' =
      (is_at_end s' ≡ true)
      ⊎ ((length (unread s') < length (unread s)) ⊎ ((s' ≡ s) × (start < s.pos)))

  Synced : ℕ → ℕ → Parser F → Type 0
  Synced rounds start s = (s' : Parser F) × (sync_loop rounds start s ≡ some s') × Stops start s s'

  again :
      (rounds start : ℕ) (s : Parser F)
      → is_at_end s ≡ false
      → sync_loop (suc rounds) start s ≡ sync_loop rounds start (bump s)
      → Synced rounds start (bump s)
      → Synced (suc rounds) start s
  unfolding Synced Stops
  again rounds start s h e (s', ran, stops) =
      let less = bump_lt s h in
      (
        s',
        e ∙ ran,
        elim stops [
          | inl f ↦ inl f
          | inr (inl f) ↦ inr (inl (omega arith))
          | inr (inr (f, g)) ↦ inr (inl (rw f less))
        ],
      )

  sync-Synced :
      (rounds start : ℕ) (s : Parser F) → length (unread s) < rounds → Synced rounds start s
  unfolding Synced Stops sync_loop
  sync-Synced zero start s h = absurd (omega arith)
  sync-Synced (suc rounds) start s h = elim (Bool-cases (is_at_end s)) [
    | inl e ↦ (s, rw (e, sync_loop) refl, inl e)
    | inr e ↦
        let less = bump_lt s e in
        let next = sync-Synced rounds start (bump s) (omega arith) in
        elim (Recovery-cases (recovery_of (peek s).kind)) [
          | inl k ↦ (bump s, rw (e, sync_loop) (rw k refl), inr (inl less))
          | inr (inr k) ↦ again rounds start s e (rw (e, sync_loop) (rw k refl)) next
          | inr (inl k) ↦ elim (Bool-cases (ltb start s.pos)) [
            | inl b ↦
                (s, rw (e, sync_loop) (rw k (rw b refl)), inr (inr (refl, ltb→lt start s.pos b)))
            | inr b ↦ again rounds start s e (rw (e, sync_loop) (rw k (rw b refl))) next
          ]
        ]
  ]

  synced :
      (s : Parser F)
      → (s' : Parser F) × (synchronize s ≡ some s')
        × ((is_at_end s' ≡ true) ⊎ (length (unread s') < length (unread s)))
  unfolding synchronize Synced Stops
  synced s =
      let (s', ran, stops) = sync-Synced (suc (length (unread s))) s.pos s (omega arith) in
      (
        s',
        ran,
        elim stops [
          | inl e ↦ inl e
          | inr (inl e) ↦ inr e
          | inr (inr (e, g)) ↦ absurd (omega (arith, g))
        ],
      )

  -- What `parse` relies on of `parse_decl`: a declaration has a token, and an error un-reads none.
  abbrev pub After : Parser F → ParsedDecl F → Type 0
  After s (ParsedDecl.ok d s') = length (unread s') < length (unread s)
  After s (ParsedDecl.err e s') = length (unread s') ≤ length (unread s)

  abbrev pub Advances : (Parser F → ParsedDecl F) → Type 0
  Advances parse_decl = (s : Parser F) → is_at_end s ≡ false → After s (parse_decl s)

  -- A file, or at least one error.
  abbrev pub Finishes : ParsedFile F → Type 0
  Finishes (ParsedFile.file f) = Unit
  Finishes (ParsedFile.failed bag) = 0 < length bag.errors
  Finishes ParsedFile.stuck = ⊥

  finish-Finishes : (decls : List (Decl F)) (es : List Error) → Finishes (finish decls es)
  unfolding finish
  finish-Finishes decls [] = tt
  finish-Finishes decls (e ∷ es) = omega arith

  module _ (parse_decl : Parser F → ParsedDecl F) (advances : Advances parse_decl) where
    -- Rounds enough for the unread tokens, or for the end.
    Ready : ℕ → Parser F → Type 0
    Ready rounds s = ((is_at_end s ≡ true) × (0 < rounds)) ⊎ (length (unread s) < rounds)

    round :
        (rounds : ℕ) (decls : List (Decl F)) (s : Parser F) (r : ParsedDecl F)
        → is_at_end s ≡ false
        → length (unread s) < suc rounds
        → parse_decl s ≡ r
        → After s r
        → ((decls' : List (Decl F)) (s' : Parser F)
            → Ready rounds s'
            → Finishes (parse_loop parse_decl rounds decls' s'))
        → Finishes (parse_loop parse_decl (suc rounds) decls s)
    unfolding parse_loop Ready
    round rounds decls s (ParsedDecl.ok d s') e enough h after rest =
        rw (e, parse_loop) (rw h (rest (decls ++ d ∷ []) s' (inr (omega arith))))
    round rounds decls s (ParsedDecl.err x s') e enough h after rest =
        let (s'', ran, stops) = synced (record s' { errors = s'.errors ++ x ∷ [] }) in
        let less = bump_lt s e in
        rw (e, parse_loop)
          (rw h (
            rw ran (
              rest decls s''
                (elim stops [ inl f ↦ inl (f, omega arith) | inr f ↦ inr (omega arith) ]))))

    still_enough :
        (rounds : ℕ) (s : Parser F)
        → is_at_end s ≡ false
        → Ready rounds s
        → length (unread s) < rounds
    unfolding Ready
    still_enough rounds s e (inl (f, g)) = absurd (true≢false (sym f ∙ e))
    still_enough rounds s e (inr g) = g

    loop-Finishes :
        (rounds : ℕ) (decls : List (Decl F)) (s : Parser F)
        → Ready rounds s
        → Finishes (parse_loop parse_decl rounds decls s)
    unfolding parse_loop Ready
    loop-Finishes zero decls s (inl (e, h)) = absurd (omega arith)
    loop-Finishes zero decls s (inr h) = absurd (omega arith)
    loop-Finishes (suc rounds) decls s ready = elim (Bool-cases (is_at_end s)) [
      | inl e ↦ rw (e, parse_loop) (finish-Finishes decls s.errors)
      | inr e ↦
          round rounds decls s (parse_decl s) e (still_enough (suc rounds) s e ready) refl
            (advances s e) (loop-Finishes rounds)
    ]

    -- `parse` over a `parse_decl` that reads a token for each declaration and un-reads none for an
    -- error: its loop and that of `synchronize` end, and it returns a file or at least one error.
    pub parse-Finishes : (s : Parser F) → Finishes (parse parse_decl s)
    unfolding parse Ready
    parse-Finishes s = loop-Finishes (suc (length (unread s))) [] s (inr (omega arith))
