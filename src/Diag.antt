-- ===== src/Diag.antt =====
-- crates/tinox-common/src/lib.rs: source positions, spans and diagnostics.
use tinox.Prelude.{ℕ, Bool, List, [], ◌∷◌, ◌++◌, Text, ltb, if◌then◌else◌, true, false}

pub record Pos : Type 0 where
  pub offset : ℕ
  pub line : ℕ
  pub column : ℕ

pub record Span : Type 0 where
  pub start : Pos
  pub end : Pos

-- `Pos::dummy`
unfoldable pub dummy_pos : Pos
dummy_pos = record { offset = 0; line = 1; column = 1 }

-- `Span::dummy`
unfoldable pub dummy_span : Span
unfolding dummy_pos
dummy_span = record { start = dummy_pos; end = dummy_pos }

-- `Span::merge`
unfoldable pub merge : Span → Span → Span
merge a b = record {
  start = if ltb a.start.offset b.start.offset then a.start else b.start;
  end = if ltb b.end.offset a.end.offset then a.end else b.end;
}

pub record Spanned {ℓ} (T : Type ℓ) : Type ℓ where
  pub node : T
  pub span : Span
  pub id : ℕ

-- `Spanned::new`: identifier 0 means "not assigned".
unfoldable pub spanned {ℓ} : {T : Type ℓ} → T → Span → Spanned T
spanned n s = record { node = n; span = s; id = 0 }

pub record Error : Type 0 where
  pub span : Span
  pub message : Text

-- `Error::new`
abbrev pub error_at : Span → Text → Error
error_at s m = record { span = s; message = m }

pub record ErrorBag : Type 0 where
  pub errors : List Error

-- `ErrorBag::push`
unfoldable pub push : ErrorBag → Error → ErrorBag
push bag e = record { errors = bag.errors ++ e ∷ [] }

-- `ErrorBag::extend`
unfoldable pub extend : ErrorBag → ErrorBag → ErrorBag
extend bag other = record { errors = bag.errors ++ other.errors }

-- `ErrorBag::is_empty`
unfoldable pub is_empty : ErrorBag → Bool
is_empty bag = elim bag.errors [ [] ↦ true | _ ∷ _ ↦ false ]
