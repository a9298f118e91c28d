-- ===== src/Token/State.antt =====
-- The data of the token contract: errors.rs, `DataKey` and `AllowanceValue` of storage.rs. An
-- `Address` is only compared, so it is a number; a `Symbol` and a `String` are texts.
use Prim.Native.String.{String}
use navin_contracts.Prelude.{ℕ, ℤ, Map, Option, none, [], List, Bool, false}

pub data TokenError : Type 0 where
  already_initialized not_initialized unauthorized invalid_amount : TokenError
  insufficient_balance insufficient_allowance same_account : TokenError
  invalid_expiration_ledger contract_paused overflow : TokenError

pub data MetadataError : Type 0 where
  not_initialized unauthorized key_not_allowed key_not_found : MetadataError
  key_already_exists invalid_key invalid_value : MetadataError

pub record AllowanceValue : Type 0 where
  pub amount : ℤ
  pub expiration_ledger : ℕ  -- u32

-- The calls of the host that the contract makes and never reads back: the events that it publishes,
-- and the entries whose time to live it extends.
pub data HostCall : Type 0 where
  init mint adm_burn burn : ℕ → ℤ → HostCall
  transfer burn_from : ℕ → ℕ → ℤ → HostCall
  inc_alw dec_alw : ℕ → ℕ → ℤ → ℤ → HostCall
  tr_from : ℕ → ℕ → ℕ → ℤ → HostCall
  approve : ℕ → ℕ → ℤ → ℕ → HostCall
  admin_tr : ℕ → ℕ → HostCall
  paused unpaused : ℕ → HostCall
  batch_tr : ℕ → ℕ → HostCall
  meta_add meta_rm meta_del : ℕ → String → HostCall
  meta_set : ℕ → String → String → HostCall
  extend_balance_ttl : ℕ → ℕ → ℕ → HostCall
  extend_allowance_ttl : ℕ → ℕ → ℕ → ℕ → HostCall

-- The storage, a field for each constructor of `DataKey`. `balances` and `allowances` are
-- persistent entries, the others belong to the instance.
pub record Token : Type 0 where
  pub admin : Option ℕ
  pub name : Option String
  pub symbol : Option String
  pub total_supply : Option ℤ
  pub balances : Map ℤ
  pub allowances : ℕ → ℕ → Option AllowanceValue
  pub allowed_metadata_keys : String → Bool
  pub metadata : String → Option String
  pub is_paused : Bool
  pub host_calls : List HostCall  -- the latest first

-- The storage of a contract that was deployed and not yet initialized.
abbrev pub deployed : Token
deployed = record {
  admin = none;
  name = none;
  symbol = none;
  total_supply = none;
  balances = [];
  allowances = λ owner spender. none;
  allowed_metadata_keys = λ key. false;
  metadata = λ key. none;
  is_paused = false;
  host_calls = [];
}
