-- ===== src/Lexer/Reading/Spelling.antt =====
-- The keyword table and the keywords' spellings.
use tinox.Prelude.{
  true, false, not, ◌&&◌, Bool, All-all, some, List, [], ◌∷◌, Text, codes, text_eq, text_eq→≡, All,
  ◌≡◌, ◌≢◌, ◌↔◌, refl, ap, ◌∙◌, arith, inl, inr, Bool-cases,
}
use tinox.Lexer.Keyword.{Keyword, keyword_table, find_arm, lookup}

-- How a keyword is written in a program; `As_` is not written at all.
abbrev pub spelling : Keyword → Text
spelling Keyword.if_ = codes "if"
spelling Keyword.else_ = codes "else"
spelling Keyword.while = codes "while"
spelling Keyword.for = codes "for"
spelling Keyword.loop = codes "loop"
spelling Keyword.return = codes "return"
spelling Keyword.break = codes "break"
spelling Keyword.continue = codes "continue"
spelling Keyword.match = codes "match"
spelling Keyword.case = codes "case"
spelling Keyword.class = codes "class"
spelling Keyword.interface = codes "interface"
spelling Keyword.extends = codes "extends"
spelling Keyword.implements = codes "implements"
spelling Keyword.trait = codes "trait"
spelling Keyword.enum = codes "enum"
spelling Keyword.new = codes "new"
spelling Keyword.this = codes "this"
spelling Keyword.super = codes "super"
spelling Keyword.self_ = codes "self"
spelling Keyword.self_type = codes "Self"
spelling Keyword.public = codes "public"
spelling Keyword.private = codes "private"
spelling Keyword.protected = codes "protected"
spelling Keyword.package_ = codes "package"
spelling Keyword.static = codes "static"
spelling Keyword.final = codes "final"
spelling Keyword.abstract = codes "abstract"
spelling Keyword.override = codes "override"
spelling Keyword.readonly = codes "readonly"
spelling Keyword.var = codes "var"
spelling Keyword.val = codes "val"
spelling Keyword.let_ = codes "let"
spelling Keyword.const = codes "const"
spelling Keyword.mut = codes "mut"
spelling Keyword.fn = codes "fn"
spelling Keyword.fnc = codes "fnc"
spelling Keyword.throws = codes "throws"
spelling Keyword.throw = codes "throw"
spelling Keyword.try = codes "try"
spelling Keyword.catch = codes "catch"
spelling Keyword.finally = codes "finally"
spelling Keyword.defer = codes "defer"
spelling Keyword.spawn = codes "spawn"
spelling Keyword.channel = codes "channel"
spelling Keyword.send = codes "send"
spelling Keyword.recv = codes "recv"
spelling Keyword.select = codes "select"
spelling Keyword.default = codes "default"
spelling Keyword.async = codes "async"
spelling Keyword.await = codes "await"
spelling Keyword.module_ = codes "module"
spelling Keyword.namespace = codes "namespace"
spelling Keyword.import = codes "import"
spelling Keyword.export = codes "export"
spelling Keyword.as_ = codes "as"
spelling Keyword.in_ = codes "in"
spelling Keyword.where_ = codes "where"
spelling Keyword.extern = codes "extern"
spelling Keyword.unsafe = codes "unsafe"
spelling Keyword.ref = codes "ref"
spelling Keyword.size_of = codes "sizeof"
spelling Keyword.type_of = codes "typeof"
spelling Keyword.is = codes "is"
spelling Keyword.as_reserved = []
spelling Keyword.cast = codes "cast"
spelling Keyword.null = codes "null"
spelling Keyword.true_ = codes "true"
spelling Keyword.false_ = codes "false"
spelling Keyword.nothing = codes "Nothing"
spelling Keyword.never = codes "Never"
spelling Keyword.any = codes "Any"
spelling Keyword.dot_self = codes ".self"
spelling Keyword.immutable = codes "immutable"

-- No two arms of the table have one text, so each spelling finds its own keyword.
lookup-spelling : (k : Keyword) → k ≢ Keyword.as_reserved → lookup (spelling k) ≡ some k
unfolding lookup
lookup-spelling Keyword.if_ n = refl
lookup-spelling Keyword.as_reserved n = absurd (n refl)
lookup-spelling _ n = refl

abbrev IsSpelled : Text × Keyword → Type 0
IsSpelled (t, k) = (t ≡ spelling k) × (k ≢ Keyword.as_reserved)

find_arm-IsSpelled :
    (arms : List (Text × Keyword)) (s : Text) (k : Keyword)
    → All IsSpelled arms
    → find_arm arms s ≡ some k
    → IsSpelled (s, k)
find_arm-IsSpelled [] s k h e = cc
find_arm-IsSpelled ((t, j) ∷ arms) s k h e = elim (Bool-cases (text_eq s t)) [
  | inl same ↦ ground (arith, text_eq→≡ s t same)
  | inr other ↦ find_arm-IsSpelled arms s k h.1 (ground arith)
]

-- The test that decides `IsSpelled`; the reserved keyword is spelled as no text.
abbrev spelled : Text × Keyword → Bool
spelled (t, k) = text_eq t (spelling k) && not (text_eq t [])

spelled→IsSpelled : (arm : Text × Keyword) → spelled arm ≡ true → IsSpelled arm
spelled→IsSpelled (t, k) h =
    let same : text_eq t (spelling k) ≡ true = ground arith in
    let written : text_eq t [] ≡ false = ground arith in
    let e = text_eq→≡ t (spelling k) same in
    (
      e,
      λ reserved.
          let empty : text_eq t [] ≡ true = ap (λ s. text_eq s []) (e ∙ ap spelling reserved) in cc,
    )

table-IsSpelled : All IsSpelled keyword_table
table-IsSpelled = All-all spelled IsSpelled keyword_table spelled→IsSpelled refl

-- `Keyword::lookup` answers `k` for the spelling of `k`, and for no other text; the one keyword that
-- it never answers is the reserved `As_`.
pub lookup_iff :
    (s : Text) (k : Keyword) → (lookup s ≡ some k) ↔ ((s ≡ spelling k) × (k ≢ Keyword.as_reserved))
unfolding lookup
lookup_iff s k = (
  find_arm-IsSpelled keyword_table s k table-IsSpelled,
  λ h. ap lookup h.0 ∙ lookup-spelling k h.1,
)
