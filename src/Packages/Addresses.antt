-- ===== src/Packages/Addresses.antt =====
-- crates/tinox/src/pm.rs: the address that `effective_download_url` gives for coordinates.
use tinox.Prelude.{
  ℕ, zero, suc, Bool, true, false, ◌==◌, none, some, List, [], ◌∷◌, ◌++◌, Text, codes, text_eq,
  text_eq_refl, All, ◌≡◌, refl, ap, ◌∙◌, arith,
}
use tinox.Packages.Types.{Repository, Dependency, TinoxManifest, done}
use tinox.Packages.Strings.{trim_end}
use tinox.Packages.Resolve.{find_first, base_url, coordinate_url, effective_download_url}

abbrev pub slashes : ℕ → Text
slashes zero = []
slashes (suc n) = b'/' ∷ slashes n

abbrev pub ends_in_slash : Text → Bool
ends_in_slash [] = false
ends_in_slash (c ∷ []) = c == b'/'
ends_in_slash (c ∷ d ∷ s) = ends_in_slash (d ∷ s)

trim_end-slashes : (n : ℕ) → trim_end (λ c. c == b'/') (slashes n) ≡ []
trim_end-slashes zero = refl
trim_end-slashes (suc n) = rw (trim_end-slashes n) refl

trim_end-address :
    (s : Text) (n : ℕ) → ends_in_slash s ≡ false → trim_end (λ c. c == b'/') (s ++ slashes n) ≡ s
trim_end-address [] n h = trim_end-slashes n
trim_end-address (c ∷ []) n h = rw (trim_end-slashes n, trim_end) (rw h refl)
trim_end-address (c ∷ d ∷ s) n h = rw (trim_end-address (d ∷ s) n h, trim_end) refl

find_first-behind {ℓ} :
    {A : Type ℓ} (p : A → Bool) (before after : List A) (a : A)
    → All (λ x. p x ≡ false) before
    → p a ≡ true
    → find_first p (before ++ a ∷ after) ≡ some a
find_first-behind p [] after a h e = rw (e, find_first) refl
find_first-behind p (x ∷ before) after a h e =
    rw (h.0, find_first) (find_first-behind p before after a h.1 e)

-- A dependency names a repository and no address of its own. The manifest has an entry of that id,
-- and no entry before it has it. Then the dependency's address is built from that entry's address,
-- without the slashes at its end, however many there are, and from the coordinates.
pub effective_download_url-repository :
    (dep : Dependency) (manifest : TinoxManifest) (before after : List Repository) (r : Repository)
    (host : Text) (n : ℕ)
    → dep.url ≡ none
    → dep.repository ≡ some r.id
    → manifest.repositories ≡ before ++ r ∷ after
    → All (λ x. text_eq x.id r.id ≡ false) before
    → r.url ≡ host ++ slashes n
    → ends_in_slash host ≡ false
    → effective_download_url dep manifest
      ≡ done (
          host
          ++ codes "/api/v1/"
          ++ dep.group
          ++ codes "/"
          ++ dep.artifact_id
          ++ codes "/"
          ++ dep.version)
unfolding effective_download_url base_url coordinate_url
effective_download_url-repository dep manifest before after r host n own named listed first url
      plain =
    let found =
      find_first-behind (λ x. text_eq x.id r.id) before after r first (text_eq_refl r.id) in
    let base : base_url dep manifest ≡ done r.url = ground (arith, named, listed, found) in
    let trimmed : trim_end (λ c. c == b'/') r.url ≡ host =
      ap (trim_end (λ c. c == b'/')) url ∙ trim_end-address host n plain in
    ground (arith, own, base, trimmed)
