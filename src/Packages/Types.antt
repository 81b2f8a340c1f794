-- ===== src/Packages/Types.antt =====
-- crates/tinox/src/pm.rs: the manifest's and the lock file's data, and the errors of the package
-- manager's pure functions.
use tinox.Prelude.{List, Option, Text}

pub record Package : Type 0 where
  pub name : Text
  pub version : Text
  pub description : Text

pub record Repository : Type 0 where
  pub id : Text
  pub url : Text

pub record Dependency : Type 0 where
  pub group : Text
  pub artifact_id : Text
  pub version : Text
  pub url : Option Text
  pub repository : Option Text
  pub sha256 : Option Text

pub record TinoxManifest : Type 0 where
  pub package_ : Option Package
  pub dependencies : List Dependency
  pub repositories : List Repository

pub record LockEntry : Type 0 where
  pub group : Text
  pub artifact_id : Text
  pub version : Text
  pub url : Text
  pub sha256 : Text

pub record TinoxLock : Type 0 where
  pub dependencies : List LockEntry

-- One constructor for each error message, with what the message names.
pub data PmError : Type 0 where
  url_and_repository : Dependency → PmError
  unknown_repository : Dependency → Text → PmError
  invalid_segment : Text → Text → PmError
  checksum_mismatch : Dependency → Text → Text → Text → PmError

-- Rust's `Result<A, String>`.
pub data Result {ℓ} (A : Type ℓ) : Type ℓ where
  done : A → Result A
  failed : PmError → Result A

infix 10 ◌>>=◌
-- The `?` operator.
abbrev pub ◌>>=◌ {ℓ κ} : {A : Type ℓ} {B : Type κ} → Result A → (A → Result B) → Result B
done a >>= f = f a
failed e >>= f = failed e
