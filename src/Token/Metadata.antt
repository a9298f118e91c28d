-- ===== src/Token/Metadata.antt =====
-- The entry points of contracts/token/src/lib.rs for the token's metadata and its allowed keys.
use Prim.Native.String.{String}
use text.Mathlib.Text.{◌==◌ as str_eq}
use navin_contracts.Prelude.{ℕ, Bool, Option, ◌==◌, not}
use navin_contracts.Host.{Env, Action, ◌>>=◌, ◌>>◌, gets, modify, fail_if, unwrap, require_auth}
use navin_contracts.Token.State.{Token, MetadataError, HostCall}
use navin_contracts.Token.Storage.{is_initialized, host_call}
use navin_contracts.Token.Storage

abbrev pub MetadataCall : Type 0 → Type 0
MetadataCall A = Action Token MetadataError A

abbrev pub require_initialized : MetadataCall (Unit {0})
require_initialized = do i ← gets is_initialized; fail_if (not i) MetadataError.not_initialized

abbrev pub require_admin : ℕ → MetadataCall (Unit {0})
require_admin admin = do
  o ← gets (λ s. s.admin)
  a ← unwrap o
  fail_if (not (a == admin)) MetadataError.unauthorized

unfoldable pub add_allowed_metadata_key : Env → ℕ → String → MetadataCall (Unit {0})
add_allowed_metadata_key env admin key = do
  require_initialized
  require_auth env admin
  require_admin admin
  fail_if (str_eq key "") MetadataError.invalid_key
  known ← gets (Storage.is_metadata_key_allowed key)
  fail_if known MetadataError.key_already_exists
  modify (Storage.add_allowed_metadata_key key)
  modify (host_call (HostCall.meta_add admin key))

unfoldable pub remove_allowed_metadata_key : Env → ℕ → String → MetadataCall (Unit {0})
remove_allowed_metadata_key env admin key = do
  require_initialized
  require_auth env admin
  require_admin admin
  known ← gets (Storage.is_metadata_key_allowed key)
  fail_if (not known) MetadataError.key_not_found
  modify (Storage.remove_allowed_metadata_key key)
  modify (host_call (HostCall.meta_rm admin key))

unfoldable pub is_metadata_key_allowed : String → MetadataCall Bool
is_metadata_key_allowed key = do require_initialized; gets (Storage.is_metadata_key_allowed key)

unfoldable pub set_metadata : Env → ℕ → String → String → MetadataCall (Unit {0})
set_metadata env admin key value = do
  require_initialized
  require_auth env admin
  require_admin admin
  known ← gets (Storage.is_metadata_key_allowed key)
  fail_if (not known) MetadataError.key_not_allowed
  fail_if (str_eq value "") MetadataError.invalid_value
  modify (Storage.set_metadata key value)
  modify (host_call (HostCall.meta_set admin key value))

unfoldable pub get_metadata : String → MetadataCall (Option String)
get_metadata key = do require_initialized; gets (Storage.get_metadata key)

unfoldable pub remove_metadata : Env → ℕ → String → MetadataCall (Unit {0})
remove_metadata env admin key = do
  require_initialized
  require_auth env admin
  require_admin admin
  present ← gets (Storage.has_metadata key)
  fail_if (not present) MetadataError.key_not_found
  modify (Storage.remove_metadata key)
  modify (host_call (HostCall.meta_del admin key))
