-- ===== src/Lexer/Keyword.antt =====
-- The keywords of the language and `Keyword::lookup`. A name that the logic reserves, or that `Bool` and
-- `if` use, has an underscore behind it; `as_reserved` is the source's unused variant `As_`.
use tinox.Prelude.{◌≡◌, refl, true, false, List, [], ◌∷◌, Option, none, some, Text, codes, text_eq}

pub data Keyword : Type 0 where
  if_ else_ while for loop return : Keyword
  break continue match case class interface : Keyword
  extends implements trait enum new this : Keyword
  super self_ self_type public private protected : Keyword
  package_ static final abstract override readonly : Keyword
  var val let_ const mut fn : Keyword
  fnc throws throw try catch finally : Keyword
  defer spawn channel send recv select : Keyword
  default async await module_ namespace import : Keyword
  export as_ in_ where_ extern unsafe : Keyword
  ref size_of type_of is as_reserved cast : Keyword
  null true_ false_ nothing never any : Keyword
  dot_self immutable : Keyword

-- The arms of the `match` in `Keyword::lookup`, in their order.
abbrev pub keyword_table : List (Text × Keyword)
keyword_table =
    (codes "if", Keyword.if_)
    ∷ (codes "else", Keyword.else_)
    ∷ (codes "while", Keyword.while)
    ∷ (codes "for", Keyword.for)
    ∷ (codes "loop", Keyword.loop)
    ∷ (codes "return", Keyword.return)
    ∷ (codes "break", Keyword.break)
    ∷ (codes "continue", Keyword.continue)
    ∷ (codes "match", Keyword.match)
    ∷ (codes "case", Keyword.case)
    ∷ (codes "class", Keyword.class)
    ∷ (codes "interface", Keyword.interface)
    ∷ (codes "extends", Keyword.extends)
    ∷ (codes "implements", Keyword.implements)
    ∷ (codes "trait", Keyword.trait)
    ∷ (codes "enum", Keyword.enum)
    ∷ (codes "new", Keyword.new)
    ∷ (codes "this", Keyword.this)
    ∷ (codes "super", Keyword.super)
    ∷ (codes "self", Keyword.self_)
    ∷ (codes "Self", Keyword.self_type)
    ∷ (codes "public", Keyword.public)
    ∷ (codes "private", Keyword.private)
    ∷ (codes "protected", Keyword.protected)
    ∷ (codes "package", Keyword.package_)
    ∷ (codes "static", Keyword.static)
    ∷ (codes "final", Keyword.final)
    ∷ (codes "abstract", Keyword.abstract)
    ∷ (codes "override", Keyword.override)
    ∷ (codes "readonly", Keyword.readonly)
    ∷ (codes "var", Keyword.var)
    ∷ (codes "val", Keyword.val)
    ∷ (codes "let", Keyword.let_)
    ∷ (codes "const", Keyword.const)
    ∷ (codes "mut", Keyword.mut)
    ∷ (codes "fn", Keyword.fn)
    ∷ (codes "fnc", Keyword.fnc)
    ∷ (codes "throw", Keyword.throw)
    ∷ (codes "throws", Keyword.throws)
    ∷ (codes "try", Keyword.try)
    ∷ (codes "catch", Keyword.catch)
    ∷ (codes "finally", Keyword.finally)
    ∷ (codes "defer", Keyword.defer)
    ∷ (codes "spawn", Keyword.spawn)
    ∷ (codes "channel", Keyword.channel)
    ∷ (codes "send", Keyword.send)
    ∷ (codes "recv", Keyword.recv)
    ∷ (codes "select", Keyword.select)
    ∷ (codes "default", Keyword.default)
    ∷ (codes "async", Keyword.async)
    ∷ (codes "await", Keyword.await)
    ∷ (codes "module", Keyword.module_)
    ∷ (codes "namespace", Keyword.namespace)
    ∷ (codes "import", Keyword.import)
    ∷ (codes "export", Keyword.export)
    ∷ (codes "as", Keyword.as_)
    ∷ (codes "in", Keyword.in_)
    ∷ (codes "where", Keyword.where_)
    ∷ (codes "extern", Keyword.extern)
    ∷ (codes "unsafe", Keyword.unsafe)
    ∷ (codes "ref", Keyword.ref)
    ∷ (codes "sizeof", Keyword.size_of)
    ∷ (codes "typeof", Keyword.type_of)
    ∷ (codes "is", Keyword.is)
    ∷ (codes "cast", Keyword.cast)
    ∷ (codes "null", Keyword.null)
    ∷ (codes "true", Keyword.true_)
    ∷ (codes "false", Keyword.false_)
    ∷ (codes "Nothing", Keyword.nothing)
    ∷ (codes "Never", Keyword.never)
    ∷ (codes "Any", Keyword.any)
    ∷ (codes ".self", Keyword.dot_self)
    ∷ (codes "immutable", Keyword.immutable)
    ∷ []

-- The first arm whose text is `s`.
abbrev pub find_arm : List (Text × Keyword) → Text → Option Keyword
find_arm [] s = none
find_arm ((t, k) ∷ arms) s = elim (text_eq s t) [ true ↦ some k | false ↦ find_arm arms s ]

-- `Keyword::lookup`
unfoldable pub lookup : Text → Option Keyword
lookup s = find_arm keyword_table s

lookup_class : lookup (codes "class") ≡ some Keyword.class
unfolding lookup
lookup_class = refl
