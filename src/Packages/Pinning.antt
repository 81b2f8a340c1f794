-- ===== src/Packages/Pinning.antt =====
-- crates/tinox/src/pm.rs: the lock file as a map from coordinates to entries, and the checksum that
-- an install is held to.
use tinox.Prelude.{
  Bool, true, false, not, ◌&&◌, ◌||◌, if◌then◌else◌, none, some, List, [], ◌∷◌, ◌++◌, Text, text_eq,
  text_eq_refl, text_eq→≡, keep, All, ◌≡◌, ◌↔◌, inl, inr, Bool-cases, refl, ap, ◌∙◌, arith,
}
use tinox.Packages.Types.{Dependency, LockEntry, TinoxLock, done}
use tinox.Packages.Strings.{eq_ignore_ascii_case}
use tinox.Packages.Resolve.{
  find_first, same_coordinates, dep_coordinates, entry_coordinates, lock_entry_for,
  upsert_lock_entry, locked_checksum, expected_checksum, verify_checksum,
}

same_coordinates→≡ :
    (k : Text × Text × Text) (e : LockEntry) → same_coordinates k e ≡ true → entry_coordinates e ≡ k
same_coordinates→≡ (g, a, v) e h =
    let hg : text_eq e.group g ≡ true = ground arith in
    let ha : text_eq e.artifact_id a ≡ true = ground arith in
    let hv : text_eq e.version v ≡ true = ground arith in
    cc (text_eq→≡ e.group g hg, text_eq→≡ e.artifact_id a ha, text_eq→≡ e.version v hv)

same_coordinates_refl : (e : LockEntry) → same_coordinates (entry_coordinates e) e ≡ true
same_coordinates_refl e =
    rw (text_eq_refl e.group, text_eq_refl e.artifact_id, text_eq_refl e.version) refl

-- Finding behind an entry that is put last, once the entries that it replaces are removed.
find_first-put {ℓ} :
    {A : Type ℓ} (p q : A → Bool) (e : A) (es : List A)
    → ((x : A) → q x ≡ true → p x ≡ p e)
    → ((x : A) → p e ≡ true → p x ≡ true → q x ≡ true)
    → find_first p (keep (λ x. not (q x)) es ++ (e ∷ []))
      ≡ (if p e then some e else find_first p es)
find_first-put p q e [] agree only = elim (Bool-cases (p e)) [
  | inl h ↦ rw h refl
  | inr h ↦ rw h refl
]
find_first-put p q e (x ∷ es) agree only =
    ground (arith, find_first-put p q e es agree only, agree x, only x)

-- The test on coordinates alone.
abbrev same_key : Text × Text × Text → Text × Text × Text → Bool
same_key (g, a, v) (g', a', v') = text_eq g' g && text_eq a' a && text_eq v' v

module _ (lock : TinoxLock) (e : LockEntry) (dep : Dependency) where
  -- After `upsert_lock_entry`, `lock_entry_for` gives the new entry to a dependency of its
  -- coordinates, and to any other dependency what it gave before.
  pub lock_entry_for-upsert :
      lock_entry_for (upsert_lock_entry lock e) dep
      ≡ (if same_coordinates (dep_coordinates dep) e then some e else lock_entry_for lock dep)
  unfolding lock_entry_for upsert_lock_entry
  lock_entry_for-upsert =
      find_first-put (same_coordinates (dep_coordinates dep))
        (same_coordinates (entry_coordinates e)) e lock.dependencies
        (λ x h. ap (same_key (dep_coordinates dep)) (same_coordinates→≡ _ x h))
        (λ x he hx. ap (λ k. same_key k (entry_coordinates x)) (same_coordinates→≡ _ e he) ∙ hx)

-- No two entries of the list have the same coordinates.
abbrev pub Distinct : List LockEntry → Type 0
Distinct [] = Unit
Distinct (e ∷ es) = All (λ x. same_coordinates (entry_coordinates e) x ≡ false) es × Distinct es

same_coordinates_sym :
    (a b : LockEntry)
    → same_coordinates (entry_coordinates a) b ≡ false
    → same_coordinates (entry_coordinates b) a ≡ false
same_coordinates_sym a b h = elim (Bool-cases (same_coordinates (entry_coordinates b) a)) [
  | inl same ↦
      let back : same_coordinates (entry_coordinates a) b ≡ true =
        ap (λ k. same_key k (entry_coordinates b)) (same_coordinates→≡ _ a same)
        ∙ same_coordinates_refl b in
      cc
  | inr h' ↦ h'
]

-- What all elements satisfy, the elements that are put back and the new one satisfy.
All-put {ℓ κ} :
    {A : Type ℓ} (P : A → Type κ) (q : A → Bool) (e : A) (es : List A)
    → All P es
    → P e
    → All P (keep q es ++ (e ∷ []))
All-put P q e [] h he = (he, tt)
All-put P q e (x ∷ es) h he =
    elim (q x) as (λ b. All P (elim b [ true ↦ x ∷ keep q es | false ↦ keep q es ] ++ (e ∷ []))) [
      | true ↦ (h.0, All-put P q e es h.1 he)
      | false ↦ All-put P q e es h.1 he
    ]

Distinct-put :
    (e : LockEntry) (es : List LockEntry)
    → Distinct es
    → Distinct (keep (λ x. not (same_coordinates (entry_coordinates e) x)) es ++ (e ∷ []))
Distinct-put e [] d = (tt, tt)
Distinct-put e (x ∷ es) d = elim (Bool-cases (same_coordinates (entry_coordinates e) x)) [
  | inl h ↦ rw (h, keep) (Distinct-put e es d.1)
  | inr h ↦ rw (h, keep) (All-put _ _ e es d.0 (same_coordinates_sym e x h), Distinct-put e es d.1)
]

-- `upsert_lock_entry` keeps a lock's coordinates distinct.
pub upsert_lock_entry-Distinct :
    (lock : TinoxLock) (e : LockEntry)
    → Distinct lock.dependencies
    → Distinct (upsert_lock_entry lock e).dependencies
unfolding upsert_lock_entry
upsert_lock_entry-Distinct lock e d = Distinct-put e lock.dependencies d

-- An install that records the checksum `sha` of a dependency, whose manifest entry pins none, makes
-- every later install from the same address accept exactly the contents of that checksum, up to the
-- case of the hexadecimal digits; and from another address any content.
pub verify_checksum-upsert :
    (lock : TinoxLock) (dep : Dependency) (url url' sha actual : Text)
    → dep.sha256 ≡ none
    → (verify_checksum dep url'
          (upsert_lock_entry lock (record {
            group = dep.group;
            artifact_id = dep.artifact_id;
            version = dep.version;
            url = url;
            sha256 = sha;
          }))
          false
          actual
        ≡ done tt)
      ↔ ((eq_ignore_ascii_case sha actual || not (text_eq url url')) ≡ true)
unfolding verify_checksum expected_checksum locked_checksum
verify_checksum-upsert lock dep url url' sha actual h =
    let e : LockEntry = record {
      group = dep.group;
      artifact_id = dep.artifact_id;
      version = dep.version;
      url = url;
      sha256 = sha;
    } in
    let found : lock_entry_for (upsert_lock_entry lock e) dep ≡ some e =
      lock_entry_for-upsert lock e dep ∙ rw (same_coordinates_refl e) refl in
    let expected : expected_checksum dep url' (upsert_lock_entry lock e) false
        ≡ (if text_eq url url' then some sha else none) =
      ground (arith, h, found) in
    ground (arith, expected)
