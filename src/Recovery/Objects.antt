-- ===== src/Recovery/Objects.antt =====
-- `_object_checks` of src/app/recovery/service.py: the manifest, the file rows and the bucket hold
-- the same objects.
use rulefolio_server.Prelude.{
  ℕ, suc, String, Bool, true, false, ◌&&◌, ◌||◌, Option, none, some, List, [], ◌∷◌, ◌==◌, str_eq,
  if◌then◌else◌, scalar, select, map,
}
use rulefolio_server.Files.Models.{StoredFile, is_ready}

pub record ManifestObject : Type 0 where
  pub key : String
  pub size_bytes : ℕ
  pub sha256 : ℕ

pub record RecoveryManifest : Type 0 where
  pub recovery_id : String
  pub target_at : ℕ
  pub archive_sha256 : ℕ
  pub raw_sha256 : ℕ
  pub objects : List ManifestObject

-- what is read from an opened object: its size and the digest of its bytes
pub record Content : Type 0 where
  pub size : ℕ
  pub digest : ℕ

-- The object storage; `none` for the keys, and `unavailable`, are a StorageUnavailable.
pub data Opened : Type 0 where
  unavailable missing : Opened
  opened : Content → Opened

pub record Storage : Type 0 where
  pub list_object_keys : Option (List String)
  pub open_object : String → Opened

unfoldable pub member : String → List String → Bool
member k [] = false
member k (j ∷ js) = str_eq j k || member k js

unfoldable pub covers : List String → List String → Bool
unfolding member
covers [] js = true
covers (k ∷ ks) js = member k js && covers ks js

-- equality of two sets of keys
unfoldable pub same_keys : List String → List String → Bool
unfolding covers
same_keys ks js = covers ks js && covers js ks

unfoldable pub distinct : List String → List String
distinct [] = []
distinct (k ∷ ks) = let rest = distinct ks in if member k ks then rest else k ∷ rest

unfoldable pub count_keys : List String → ℕ
unfolding distinct
count_keys ks = size (distinct ks)
  where
    size : List String → ℕ
    size [] = 0
    size (k ∷ ks) = suc (size ks)

unfoldable pub ready_files : List StoredFile → List StoredFile
ready_files files = select (λ f. is_ready f.status) files

-- the row, and the stored bytes, have the size and the digest of the manifest
unfoldable pub row_agrees : ManifestObject → Option StoredFile → Bool
row_agrees m none = false
row_agrees m (some f) = f.size_bytes == m.size_bytes && f.sha256 == m.sha256

unfoldable pub content_agrees : ManifestObject → Opened → Bool
content_agrees m unavailable = false
content_agrees m missing = false
content_agrees m (opened c) = c.size == m.size_bytes && c.digest == m.sha256

unfoldable pub object_agrees : Storage → List StoredFile → ManifestObject → Bool
unfolding row_agrees content_agrees
object_agrees storage files m =
    row_agrees m (scalar (λ f. str_eq f.object_key m.key) files)
    && content_agrees m (storage.open_object m.key)

-- the loop over the expected objects, which ends at the first that differs
unfoldable pub all_agree : Storage → List StoredFile → List ManifestObject → Bool
unfolding object_agrees
all_agree storage files [] = true
all_agree storage files (m ∷ ms) = object_agrees storage files m && all_agree storage files ms

pub record ObjectReport : Type 0 where
  pub passed : Bool
  pub counts : List (String × ℕ)

-- the counts of the files and of the objects, and whether every check passed
unfoldable pub object_checks : Storage → List StoredFile → RecoveryManifest → ObjectReport
unfolding ready_files same_keys count_keys all_agree
object_checks storage table manifest =
    let files = ready_files table in
    let keys = map (λ f. f.object_key) files in
    let expected = map (λ m. m.key) manifest.objects in
    elim storage.list_object_keys [
      | none ↦ record { passed = false; counts = ("files", count_keys keys) ∷ ("objects", 0) ∷ [] }
      | some bucket ↦ record {
        passed =
            same_keys expected keys
            && same_keys expected bucket
            && all_agree storage files manifest.objects;
        counts = ("files", count_keys keys) ∷ ("objects", count_keys bucket) ∷ [];
      }
    ]
