-- ===== src/Packages/RoundTrip.antt =====
-- crates/tinox/src/pm.rs: `parse_manifest` reads the tables that `format_dependency` writes.
use tinox.Prelude.{
  ℕ, Bool, true, false, ◌||◌, ◌==◌, if◌then◌else◌, Option, none, some, [], ◌∷◌, ◌++◌, append_assoc,
  Text, codes, ◌≡◌, refl, sym, ap, ◌∙◌, ==_refl,
}
use tinox.Packages.Strings.{
  is_whitespace, drop_while, trim_end, trim_matches, trim, split_once, lines, contains,
}
use tinox.Packages.Manifest.{
  parse_toml_kv, is_header, manifest_section_for, Reader, flush_dep, flush_repo, enter, set_key,
  read_line, read_lines,
}
use tinox.Packages.Render.{field}

-- A value without a quote, a line feed or a carriage return.
pub record Plain (s : Text) : Type 0 where
  pub no_quote : contains b'"' s ≡ false
  pub no_feed : contains b'\n' s ≡ false
  pub no_return : contains b'\r' s ≡ false

or-left : (a b : Bool) → a || b ≡ false → a ≡ false
or-left false b h = refl
or-left true b h = cc

or-right : (a b : Bool) → a || b ≡ false → b ≡ false
or-right false b h = h
or-right true b h = cc

contains-append :
    (d : ℕ) (s t : Text) → contains d s ≡ false → contains d t ≡ false → contains d (s ++ t) ≡ false
contains-append d [] t h g = g
contains-append d (c ∷ s) t h g =
    rw (or-left (c == d) _ h) (contains-append d s t (or-right (c == d) _ h) g)

trim_end_stop :
    (p : ℕ → Bool) (s : Text) (c : ℕ) → p c ≡ false → trim_end p (s ++ c ∷ []) ≡ s ++ c ∷ []
trim_end_stop p [] c h = rw h refl
trim_end_stop p (a ∷ []) c h = rw (h, trim_end) refl
trim_end_stop p (a ∷ b ∷ s) c h = rw (trim_end_stop p (b ∷ s) c h) refl

drop_while_stop : (p : ℕ → Bool) (c : ℕ) (s : Text) → p c ≡ false → drop_while p (c ∷ s) ≡ c ∷ s
drop_while_stop p c s h = rw (h, drop_while) refl

trim_end-quote :
    (v : Text) → contains b'"' v ≡ false → trim_end (λ c. c == b'"') (v ++ b'"' ∷ []) ≡ v
trim_end-quote [] h = refl
trim_end-quote (c ∷ v) h =
    rw (trim_end-quote v (or-right (c == b'"') _ h)) (last c v (or-left (c == b'"') _ h))
  where
    last :
        (c : ℕ) (v : Text)
        → (c == b'"') ≡ false
        → elim v [ [] ↦ if c == b'"' then [] else c ∷ [] | d ∷ t ↦ c ∷ d ∷ t ] ≡ c ∷ v
    last c [] h = rw h refl
    last c (d ∷ t) h = refl

unquote :
    (v : Text) → contains b'"' v ≡ false → trim_matches (λ c. c == b'"') (b'"' ∷ v ++ b'"' ∷ []) ≡ v
unquote [] h = refl
unquote (c ∷ v) h =
    ap (trim_end (λ c'. c' == b'"'))
      (drop_while_stop (λ c'. c' == b'"') c (v ++ b'"' ∷ []) (or-left (c == b'"') _ h))
    ∙ trim_end-quote (c ∷ v) h

split_once-at :
    (d : ℕ) (a b : Text) → contains d a ≡ false → split_once d (a ++ d ∷ b) ≡ some (a, b)
split_once-at d [] b h = rw (==_refl d) refl
split_once-at d (c ∷ a) b h =
    rw (or-left (c == d) _ h) (rw (split_once-at d a b (or-right (c == d) _ h)) refl)

lines-line :
    (s t : Text)
    → contains b'\n' s ≡ false
    → contains b'\r' s ≡ false
    → lines (s ++ b'\n' ∷ t) ≡ s ∷ lines t
lines-line [] t h g = refl
lines-line (c ∷ s) t h g = rw (or-left (c == b'\n') _ h) (
    rw (or-left (c == b'\r') _ g)
      (rw (lines-line s t (or-right (c == b'\n') _ h) (or-right (c == b'\r') _ g)) refl))

-- A key of the manifest, as it stands in a line.
pub record IsKey (c : ℕ) (k : Text) : Type 0 where
  pub visible : is_whitespace c ≡ false
  pub no_bracket : (c == b'[') ≡ false
  pub no_equals : contains b'=' ((c ∷ k) ++ b' ' ∷ []) ≡ false
  pub trimmed : trim ((c ∷ k) ++ b' ' ∷ []) ≡ c ∷ k
  pub key_feed : contains b'\n' (c ∷ k) ≡ false
  pub key_return : contains b'\r' (c ∷ k) ≡ false

-- The line of a key and a value, without its line feed.
abbrev key_line : Text → Text → Text
key_line k v = k ++ (codes " = \"" ++ (v ++ b'"' ∷ []))

trim-key_line : (c : ℕ) (k v : Text) → IsKey c k → trim (key_line (c ∷ k) v) ≡ key_line (c ∷ k) v
trim-key_line c k v i =
    let cut = sym (append_assoc (c ∷ k) (codes " = \"" ++ v) (b'"' ∷ [])) in
    ap (trim_end is_whitespace) (drop_while_stop is_whitespace c _ i.visible ∙ cut)
    ∙ (trim_end_stop is_whitespace ((c ∷ k) ++ (codes " = \"" ++ v)) b'"' refl ∙ sym cut)

parse_toml_kv-key_line :
    (c : ℕ) (k v : Text)
    → IsKey c k
    → contains b'"' v ≡ false
    → parse_toml_kv (key_line (c ∷ k) v) ≡ some (c ∷ k, v)
unfolding parse_toml_kv
parse_toml_kv-key_line c k v i h =
    let value = b' ' ∷ b'"' ∷ v ++ b'"' ∷ [] in
    let cut = sym (append_assoc (c ∷ k) (b' ' ∷ []) (b'=' ∷ value)) in
    let split =
      ap (split_once b'=') cut ∙ split_once-at b'=' ((c ∷ k) ++ b' ' ∷ []) value i.no_equals in
    let unquoted =
      ap (trim_matches (λ q. q == b'"')) (trim_end_stop is_whitespace (b'"' ∷ v) b'"' refl)
      ∙ unquote v h in
    ap
      (λ (o : Option (Text × Text)). elim o [
        | none ↦ none
        | some (key, val) ↦ some (trim key, trim_matches (λ q. q == b'"') (trim val))
      ])
      split
    ∙ λ j. some (i.trimmed j, unquoted j)

field-key_line : (k v rest : Text) → field k v ++ rest ≡ key_line k v ++ b'\n' ∷ rest
field-key_line k v rest =
    append_assoc k (codes " = \"" ++ (v ++ codes "\"\n")) rest
    ∙ (ap (λ t. k ++ (codes " = \"" ++ t)) (append_assoc v (codes "\"\n") rest)
        ∙ sym (
            append_assoc k (codes " = \"" ++ (v ++ b'"' ∷ [])) (b'\n' ∷ rest)
            ∙ ap (λ t. k ++ (codes " = \"" ++ t)) (append_assoc v (b'"' ∷ []) (b'\n' ∷ rest))))

lines-field :
    (k v rest : Text)
    → contains b'\n' k ≡ false
    → contains b'\r' k ≡ false
    → Plain v
    → lines (field k v ++ rest) ≡ key_line k v ∷ lines rest
lines-field k v rest a b p =
    ap lines (field-key_line k v rest)
    ∙ lines-line (key_line k v) rest
        (contains-append b'\n' k _ a (contains-append b'\n' v _ p.no_feed refl))
        (contains-append b'\r' k _ b (contains-append b'\r' v _ p.no_return refl))

abbrev read_trimmed : Text → Reader → Reader
read_trimmed line r =
    if is_header line
    then enter (manifest_section_for line) (flush_repo (flush_dep r))
    else elim (parse_toml_kv line) [ none ↦ r | some (key, value) ↦ set_key r.section key value r ]

read_line-trimmed :
    (line : Text) (r : Reader) → trim line ≡ line → read_line line r ≡ read_trimmed line r
unfolding read_line
read_line-trimmed line r h = ap (λ t. read_trimmed t r) h

-- A line of a table is read as its key and value.
read_line-field :
    (c : ℕ) (k v : Text) (r : Reader)
    → IsKey c k
    → contains b'"' v ≡ false
    → read_line (key_line (c ∷ k) v) r ≡ set_key r.section (c ∷ k) v r
read_line-field c k v r i h =
    read_line-trimmed (key_line (c ∷ k) v) r (trim-key_line c k v i)
    ∙ rw i.no_bracket (
        ap
          (λ (o : Option (Text × Text)). elim o [
            | none ↦ r
            | some (key, value) ↦ set_key r.section key value r
          ])
          (parse_toml_kv-key_line c k v i h))

pub read_field :
    (c : ℕ) (k v rest : Text) (r : Reader)
    → IsKey c k
    → Plain v
    → read_lines (lines (field (c ∷ k) v ++ rest)) r
      ≡ read_lines (lines rest) (set_key r.section (c ∷ k) v r)
read_field c k v rest r i p =
    ap (λ ls. read_lines ls r) (lines-field (c ∷ k) v rest i.key_feed i.key_return p)
    ∙ ap (read_lines (lines rest)) (read_line-field c k v r i p.no_quote)
