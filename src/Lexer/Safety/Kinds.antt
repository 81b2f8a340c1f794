-- ===== src/Lexer/Safety/Kinds.antt =====
-- crates/tinox-lexer/src/lib.rs: the kinds that the readers choose by a test or from a text.
use tinox.Prelude.{
  ℕ, Bool, true, false, if◌then◌else◌, Option, none, some, Text, codes, text_eq, ◌≡◌, refl,
}
use tinox.Lexer.Keyword.{Keyword, lookup}
use tinox.Lexer.Token.{IntSuffix, TokenKind, is_eof}
use tinox.Lexer.Numbers.{integer_kind}
use tinox.Lexer.Quoted.{Pieces, string_token}
use tinox.Lexer.Next.{keyword_or_ident, word_kind}

module _ (F : Type 0) where
  pub if-not_eof :
      (b : Bool) (k m : TokenKind F)
      → is_eof k ≡ false
      → is_eof m ≡ false
      → is_eof (if b then k else m) ≡ false
  if-not_eof true k m h i = h
  if-not_eof false k m h i = i

  pub integer_kind-not_eof :
      (suffix : Option IntSuffix) (v : ℕ) → is_eof {F = F} (integer_kind suffix v) ≡ false
  integer_kind-not_eof (some s) v = refl
  integer_kind-not_eof none v = refl

  keyword_or_ident-not_eof :
      (text : Text) (k : Option Keyword) → is_eof {F = F} (keyword_or_ident text k) ≡ false
  keyword_or_ident-not_eof text (some k) = refl
  keyword_or_ident-not_eof text none = refl

  pub word_kind-not_eof : (text : Text) → is_eof {F = F} (word_kind text) ≡ false
  unfolding word_kind
  word_kind-not_eof text = if-not_eof (text_eq text (codes "_")) _ _ refl (
      if-not_eof (text_eq text (codes "true")) _ _ refl (
        if-not_eof (text_eq text (codes "false")) _ _ refl
          (keyword_or_ident-not_eof text (lookup text))))

  pub string_token-not_eof : (p : Pieces) → is_eof {F = F} (string_token p) ≡ false
  string_token-not_eof p = if-not_eof p.has_interp _ _ refl refl
