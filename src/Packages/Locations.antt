-- ===== src/Packages/Locations.antt =====
-- crates/tinox/src/pm.rs: where `dep_install_dir` puts a dependency.
use tinox.Prelude.{
  not, All-all, ℕ, true, false, if◌then◌else◌, ◌==◌, append_assoc, text_eq→≢, [], ◌∷◌, ◌++◌, Text,
  codes, text_eq, text_eq→≡, ◌↔◌, All, ◌≡◌, ◌≢◌, ◌⊎◌, refl, sym, ap, ◌∙◌, arith, inl, inr,
  Bool-cases,
}
use mathlib.Core.List.{append_cancel_left}
use tinox.Packages.Types.{Dependency, PmError, Result, done, failed}
use tinox.Packages.Strings.{contains}
use tinox.Packages.Resolve.{
  sanitize_path_component, ends_open, starts_with_slash, join, dep_install_dir, dep_coordinates,
}

-- One plain path segment: it is not empty, is neither `.` nor `..`, and none of its characters is a
-- separator or NUL.
pub record IsPlain (s : Text) : Type 0 where
  pub not_empty : s ≢ []
  pub not_here : s ≢ codes "."
  pub not_parent : s ≢ codes ".."
  pub no_separator : All (λ c. (c ≢ b'/') × (c ≢ b'\\') × (c ≢ 0)) s

clean :
    (s : Text)
    → contains b'/' s ≡ false
    → contains b'\\' s ≡ false
    → contains 0 s ≡ false
    → All (λ c. (c ≢ b'/') × (c ≢ b'\\') × (c ≢ 0)) s
clean [] a b n = tt
clean (c ∷ s) a b n =
    let rest : (contains b'/' s ≡ false) × (contains b'\\' s ≡ false) × (contains 0 s ≡ false) =
      ground arith in
    (
      (λ e. ground (arith, e), λ e. ground (arith, e), λ e. ground (arith, e)),
      clean s rest.0 rest.1 rest.2,
    )

unclean :
    (s : Text)
    → All (λ c. (c ≢ b'/') × (c ≢ b'\\') × (c ≢ 0)) s
    → (contains b'/' s ≡ false) × (contains b'\\' s ≡ false) × (contains 0 s ≡ false)
unclean [] h = (refl, refl, refl)
unclean (c ∷ s) h =
    let slash = h.0.0 in let backslash = h.0.1 in let nul = h.0.2 in ground (arith, unclean s h.1)

equal_or_not : (s t : Text) → s ≢ t → text_eq s t ≡ false
equal_or_not s t n = elim (Bool-cases (text_eq s t)) [
  | inl h ↦ absurd (n (text_eq→≡ s t h))
  | inr h ↦ h
]

-- `sanitize_path_component` accepts exactly the plain segments.
sanitize_path_component_iff :
    (s field : Text) → (sanitize_path_component s field ≡ done tt) ↔ IsPlain s
unfolding sanitize_path_component
sanitize_path_component_iff s field = (
  λ h.
      let tests : (text_eq s [] ≡ false)
          × (text_eq s (codes ".") ≡ false)
          × (text_eq s (codes "..") ≡ false)
          × (contains b'/' s ≡ false)
          × (contains b'\\' s ≡ false)
          × (contains 0 s ≡ false) =
        ground arith in
      record {
        not_empty = text_eq→≢ s [] tests.0;
        not_here = text_eq→≢ s (codes ".") tests.1;
        not_parent = text_eq→≢ s (codes "..") tests.2;
        no_separator = clean s tests.3 tests.4 tests.5;
      },
  λ p.
      let u = unclean s p.no_separator in
      rw
        (
          equal_or_not s [] p.not_empty,
          equal_or_not s (codes ".") p.not_here,
          equal_or_not s (codes "..") p.not_parent,
          u.0,
          u.1,
          u.2,
        )
        refl,
)

-- `root` with a separator behind it, where it has none and is not empty.
abbrev pub below : Text → Text
below root = if ends_open root then root else root ++ codes "/"

-- The directory of three segments below `root`.
abbrev pub deps_dir : Text → Text → Text → Text → Text
deps_dir root group artifact_id version =
    below root ++ codes ".tinox/deps/" ++ group ++ codes "/" ++ artifact_id ++ codes "/" ++ version

Unit-cases : (r : Result (Unit {0})) → (r ≡ done tt) ⊎ ((e : PmError) × (r ≡ failed e))
Unit-cases (done tt) = inl refl
Unit-cases (failed e) = inr (e, refl)

done-injective : {A : Type 0} (a b : A) → done a ≡ done b → a ≡ b
done-injective a b e = ap (λ r. elim r [ done x ↦ x | failed _ ↦ a ]) e

-- Appending keeps what stands at the end.
ends_open-append : (p : Text) (c : ℕ) (s : Text) → ends_open (p ++ c ∷ s) ≡ ends_open (c ∷ s)
ends_open-append [] c s = refl
ends_open-append (a ∷ []) c s = refl
ends_open-append (a ∷ b ∷ p) c s = ends_open-append (b ∷ p) c s

-- A segment that is not empty and has no separator.
abbrev IsSegment : Text → Type 0
IsSegment s = (s ≢ []) × All (λ c. c ≢ b'/') s

segment-starts : (s : Text) → All (λ c. c ≢ b'/') s → starts_with_slash s ≡ false
segment-starts [] h = refl
segment-starts (c ∷ s) h = let other = h.0 in ground arith

segment-ends : (s : Text) → IsSegment s → ends_open s ≡ false
segment-ends [] h = absurd (h.0 refl)
segment-ends (c ∷ []) h = let other = h.1.0 in ground arith
segment-ends (c ∷ d ∷ s) h = segment-ends (d ∷ s) ((λ e. cc), h.1.1)

-- Behind a segment a separator is missing.
behind_segment : (p s : Text) → IsSegment s → ends_open (p ++ s) ≡ false
behind_segment p [] h = absurd (h.0 refl)
behind_segment p (c ∷ s) h = ends_open-append p c s ∙ segment-ends (c ∷ s) h

-- Joining a segment appends it below the path.
join_segment : (p s : Text) → IsSegment s → join p s ≡ below p ++ s
join_segment p s h = elim (Bool-cases (ends_open p)) [
  | inl e ↦ rw (segment-starts s h.1, e) refl
  | inr e ↦ rw (segment-starts s h.1, e) (sym (append_assoc p (codes "/") s))
]

-- Joining a further segment to one.
join-join : (p s t : Text) → IsSegment s → IsSegment t → join (p ++ s) t ≡ p ++ s ++ codes "/" ++ t
join-join p s t h k = join_segment (p ++ s) t k ∙ rw (behind_segment p s h) refl

no_slash : (s : Text) → All (λ c. (c ≢ b'/') × (c ≢ b'\\') × (c ≢ 0)) s → All (λ c. c ≢ b'/') s
no_slash [] h = tt
no_slash (c ∷ s) h = (h.0.0, no_slash s h.1)

plain-IsSegment : (s : Text) → IsPlain s → IsSegment s
plain-IsSegment s p = (p.not_empty, no_slash s p.no_separator)

apart : (c : ℕ) → not (c == b'/') ≡ true → c ≢ b'/'
apart c h = λ e. ground arith

tinox-IsSegment : IsSegment (codes ".tinox")
tinox-IsSegment =
    ((λ e. cc), All-all (λ c. not (c == b'/')) (λ c. c ≢ b'/') (codes ".tinox") apart refl)

deps-IsSegment : IsSegment (codes "deps")
deps-IsSegment =
    ((λ e. cc), All-all (λ c. not (c == b'/')) (λ c. c ≢ b'/') (codes "deps") apart refl)

-- Five joined segments.
joined :
    (root g a v : Text)
    → IsPlain g
    → IsPlain a
    → IsPlain v
    → join (join (join (join (join root (codes ".tinox")) (codes "deps")) g) a) v
      ≡ deps_dir root g a v
joined root g a v gp q vp =
    let gs = plain-IsSegment g gp in
    let aseg = plain-IsSegment a q in
    let vs = plain-IsSegment v vp in
    let b = below root in
    let p = b ++ codes ".tinox" ++ codes "/" in
    ap (λ x. join (join (join (join x (codes "deps")) g) a) v)
      (join_segment root (codes ".tinox") tinox-IsSegment)
    ∙ ap (λ x. join (join (join x g) a) v)
        (join-join b (codes ".tinox") (codes "deps") tinox-IsSegment deps-IsSegment)
    ∙ ap (λ x. join (join x a) v) (join-join p (codes "deps") g deps-IsSegment gs)
    ∙ ap (λ x. join x v) (join-join (p ++ codes "deps" ++ codes "/") g a gs aseg)
    ∙ join-join (p ++ codes "deps" ++ codes "/" ++ g ++ codes "/") a v aseg vs
    ∙ ap (λ x. x ++ g ++ codes "/" ++ a ++ codes "/" ++ v)
        (ap (λ x. x ++ codes "deps" ++ codes "/") (append_assoc b (codes ".tinox") (codes "/"))
          ∙ ap (λ x. x ++ codes "/") (append_assoc b (codes ".tinox/") (codes "deps"))
          ∙ append_assoc b (codes ".tinox/deps") (codes "/"))

-- The directory with its segments bracketed to the right.
deps_dir_lem :
    (root g a v : Text)
    → deps_dir root g a v ≡ below root ++ (codes ".tinox/deps/" ++ (g ++ b'/' ∷ (a ++ b'/' ∷ v)))
deps_dir_lem root g a v = simp append_assoc

module _ (root : Text) (dep : Dependency) where
  dep_install_dir-passed :
      (p : Text)
      → dep_install_dir root dep ≡ done p
      → (sanitize_path_component dep.group (codes "group") ≡ done tt)
        × (sanitize_path_component dep.artifact_id (codes "artifactId") ≡ done tt)
        × (sanitize_path_component dep.version (codes "version") ≡ done tt)
  unfolding dep_install_dir
  dep_install_dir-passed p h =
      elim (Unit-cases (sanitize_path_component dep.group (codes "group"))) [
        | inr (_, e) ↦ ground (arith, e)
        | inl g ↦ elim (Unit-cases (sanitize_path_component dep.artifact_id (codes "artifactId"))) [
          | inr (_, e) ↦ ground (arith, g, e)
          | inl a ↦ elim (Unit-cases (sanitize_path_component dep.version (codes "version"))) [
            | inr (_, e) ↦ ground (arith, g, a, e)
            | inl v ↦ (g, a, v)
          ]
        ]
      ]

  dep_install_dir-value :
      IsPlain dep.group
      → IsPlain dep.artifact_id
      → IsPlain dep.version
      → dep_install_dir root dep ≡ done (deps_dir root dep.group dep.artifact_id dep.version)
  unfolding dep_install_dir
  dep_install_dir-value g a v =
      rw
        (
          (sanitize_path_component_iff dep.group (codes "group")).1 g,
          (sanitize_path_component_iff dep.artifact_id (codes "artifactId")).1 a,
          (sanitize_path_component_iff dep.version (codes "version")).1 v,
        )
        (ap done (joined root dep.group dep.artifact_id dep.version g a v))

  -- `dep_install_dir` gives a directory exactly where the group, the artifact id and the version are
  -- plain path segments, and then the directory of these three below `.tinox/deps` of the root: no
  -- dependency is installed outside it.
  pub dep_install_dir_iff :
      (p : Text)
      → (dep_install_dir root dep ≡ done p) ↔ (
          IsPlain dep.group
          × IsPlain dep.artifact_id
          × IsPlain dep.version
          × (p ≡ deps_dir root dep.group dep.artifact_id dep.version))
  dep_install_dir_iff p = (
    λ h.
        let s = dep_install_dir-passed p h in
        let g = (sanitize_path_component_iff _ _).0 s.0 in
        let a = (sanitize_path_component_iff _ _).0 s.1 in
        let v = (sanitize_path_component_iff _ _).0 s.2 in
        (
          g,
          a,
          v,
          done-injective p (deps_dir root dep.group dep.artifact_id dep.version)
              (sym h ∙ dep_install_dir-value g a v),
        ),
    λ h. dep_install_dir-value h.0 h.1 h.2 ∙ ap done (sym h.3),
  )

-- A text is split at its first separator in one way.
split_unique :
    (s t x y : Text)
    → All (λ c. c ≢ b'/') s
    → All (λ c. c ≢ b'/') t
    → s ++ b'/' ∷ x ≡ t ++ b'/' ∷ y
    → (s ≡ t) × (x ≡ y)
split_unique [] [] x y h k e = (refl, cc)
split_unique [] (d ∷ t) x y h k e = absurd (k.0 cc)
split_unique (c ∷ s) [] x y h k e = absurd (h.0 cc)
split_unique (c ∷ s) (d ∷ t) x y h k e = let rest = split_unique s t x y h.1 k.1 cc in (cc, rest.1)

-- Two dependencies that `dep_install_dir` puts into the same directory have the same coordinates.
pub dep_install_dir-injective :
    (root : Text) (dep dep' : Dependency) (p : Text)
    → dep_install_dir root dep ≡ done p
    → dep_install_dir root dep' ≡ done p
    → dep_coordinates dep ≡ dep_coordinates dep'
dep_install_dir-injective root dep dep' p h h' =
    let d = (dep_install_dir_iff root dep p).0 h in
    let d' = (dep_install_dir_iff root dep' p).0 h' in
    let g =
      split_unique dep.group dep'.group _ _ (no_slash _ d.0.no_separator)
        (no_slash _ d'.0.no_separator)
        (append_cancel_left (codes ".tinox/deps/") _ _ (
          append_cancel_left (below root) _ _ (
            sym (deps_dir_lem root dep.group dep.artifact_id dep.version)
            ∙ sym d.3
            ∙ d'.3
            ∙ deps_dir_lem root dep'.group dep'.artifact_id dep'.version))) in
    let a =
      split_unique dep.artifact_id dep'.artifact_id _ _ (no_slash _ d.1.no_separator)
        (no_slash _ d'.1.no_separator) g.1 in
    cc
