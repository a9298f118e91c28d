-- ===== src/Token/Storage.antt =====
-- contracts/token/src/storage.rs, function by function.
use Prim.Native.String.{String}
use text.Mathlib.Text.{◌==◌ as str_eq}
use navin_contracts.Prelude.{
  ℕ, ℤ, pos, Option, none, some, Bool, true, false, List, [], ◌∷◌, lookup, insert, get_or, is_some,
  leb, ◌==◌, ◌&&◌, if◌then◌else◌,
}
use navin_contracts.Host.{Env}
use navin_contracts.Token.State.{Token, AllowanceValue, HostCall}

abbrev pub is_initialized : Token → Bool
is_initialized s = is_some s.admin

abbrev pub set_admin : ℕ → Token → Token
set_admin a s = record s { admin = some a }

abbrev pub set_name : String → Token → Token
set_name n s = record s { name = some n }

abbrev pub set_symbol : String → Token → Token
set_symbol n s = record s { symbol = some n }

abbrev pub set_total_supply : ℤ → Token → Token
set_total_supply v s = record s { total_supply = some v }

-- `get(..).unwrap_or(0)`
abbrev pub get_balance : ℕ → Token → ℤ
get_balance a s = get_or (lookup a s.balances) (pos 0)

abbrev pub set_balance : ℕ → ℤ → Token → Token
set_balance a v s = record s { balances = insert a v s.balances }

-- The stored amount while the ledger has not passed its expiration, and 0 after that.
abbrev pub live_amount : Env → Option AllowanceValue → ℤ
live_amount env none = pos 0
live_amount env (some v) = if leb env.sequence v.expiration_ledger then v.amount else pos 0

abbrev pub get_allowance : Env → ℕ → ℕ → Token → ℤ
get_allowance env owner spender s = live_amount env (s.allowances owner spender)

abbrev pub get_allowance_raw : ℕ → ℕ → Token → Option AllowanceValue
get_allowance_raw owner spender s = s.allowances owner spender

abbrev pub expiration_or_zero : Option AllowanceValue → ℕ
expiration_or_zero none = 0
expiration_or_zero (some v) = v.expiration_ledger

abbrev pub set_allowance : ℕ → ℕ → ℤ → ℕ → Token → Token
set_allowance owner spender amount expiration_ledger s =
    let v : AllowanceValue = record { amount = amount; expiration_ledger = expiration_ledger } in
    record s { allowances = λ o p. if o == owner && p == spender then some v else s.allowances o p }

abbrev pub host_call : HostCall → Token → Token
host_call c s = record s { host_calls = c ∷ s.host_calls }

abbrev pub extend_allowance_ttl : ℕ → ℕ → ℕ → ℕ → Token → Token
extend_allowance_ttl owner spender threshold extend_to s =
    if is_some (s.allowances owner spender)
    then host_call (HostCall.extend_allowance_ttl owner spender threshold extend_to) s
    else s

abbrev pub extend_balance_ttl : ℕ → ℕ → ℕ → Token → Token
extend_balance_ttl a threshold extend_to s =
    if is_some (lookup a s.balances)
    then host_call (HostCall.extend_balance_ttl a threshold extend_to) s
    else s

abbrev pub extend_balance_ttl_for : List ℕ → ℕ → ℕ → Token → Token
extend_balance_ttl_for [] threshold extend_to s = s
extend_balance_ttl_for (a ∷ as') threshold extend_to s =
    extend_balance_ttl_for as' threshold extend_to (extend_balance_ttl a threshold extend_to s)

abbrev pub set_paused : Bool → Token → Token
set_paused b s = record s { is_paused = b }

abbrev pub is_metadata_key_allowed : String → Token → Bool
is_metadata_key_allowed key s = s.allowed_metadata_keys key

abbrev pub add_allowed_metadata_key : String → Token → Token
add_allowed_metadata_key key s = record s {
  allowed_metadata_keys = λ k. if str_eq k key then true else s.allowed_metadata_keys k;
}

abbrev pub remove_allowed_metadata_key : String → Token → Token
remove_allowed_metadata_key key s = record s {
  allowed_metadata_keys = λ k. if str_eq k key then false else s.allowed_metadata_keys k;
}

abbrev pub get_allowed_metadata_keys : Token → List String
get_allowed_metadata_keys s = []

abbrev pub set_metadata : String → String → Token → Token
set_metadata key value s = record s {
  metadata = λ k. if str_eq k key then some value else s.metadata k;
}

abbrev pub get_metadata : String → Token → Option String
get_metadata key s = s.metadata key

abbrev pub remove_metadata : String → Token → Token
remove_metadata key s = record s { metadata = λ k. if str_eq k key then none else s.metadata k }

abbrev pub has_metadata : String → Token → Bool
has_metadata key s = is_some (s.metadata key)
