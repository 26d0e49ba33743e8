-- ===== src/Ledger/Types.antt =====
-- The data of the package ledger (ledger/transaction.go, block.go, state.go, validator.go), the
-- wallet (wallet/wallet.go), and the package's global variables as one record.
use hyperlux_chain.Prelude.{Option, none, List, []}
use hyperlux_chain.Prelude.Int.{ℤ, pos}
use hyperlux_chain.Prelude.Str.{Str}
use hyperlux_chain.Prelude.Dict.{Dict}

pub record Transaction : Type 0 where
  pub from : Str
  pub to : Str
  pub amount : ℤ
  pub fee : ℤ
  pub nonce : ℤ
  pub signature : Str
  pub pub_key : Str

pub record Block : Type 0 where
  pub index : ℤ
  pub timestamp : ℤ
  pub prev_hash : Str
  pub hash : Str
  pub merkle_root : Str
  pub proposer : Str
  pub transactions : List Transaction

pub record ValidatorDef : Type 0 where
  pub address : Str
  pub stake : ℤ

pub data SuspensionScope : Type 0 where
  scope_none scope_propose scope_vote scope_all : SuspensionScope

pub Scope-discrete : Discrete SuspensionScope
Scope-discrete = hlevel

pub record ValidatorRuntime : Type 0 where
  pub suspended_until : ℤ
  pub suspend_scope : SuspensionScope

-- The secp256k1 key of the source is carried as its serialized bytes.
pub record Wallet : Type 0 where
  pub address_ed : Str
  pub pub_ed : Str
  pub priv_ed : Str
  pub address_sec : Str
  pub pub_sec : Str
  pub priv_sec : Str

-- What the node has written: the five keys of the LevelDB store, and the validators' file.
pub record Disk : Type 0 where
  pub saved_balances : Option (Dict ℤ)
  pub saved_blockchain : Option (List Block)
  pub saved_mempool : Option (List Transaction)
  pub saved_nonce_table : Option (Dict ℤ)
  pub saved_validators : Option (List ValidatorDef)

pub record State : Type 0 where
  pub balances : Dict ℤ
  pub nonce_table : Dict ℤ
  pub mempool : List Transaction
  pub treasury_balance : ℤ
  pub burned_supply : ℤ
  pub validator_status : Dict ValidatorRuntime
  pub validators : List ValidatorDef
  pub validator_wallets : Dict Wallet
  pub blockchain : List Block
  pub disk : Disk

abbrev pub empty_state : State
empty_state = record {
  balances = [];
  nonce_table = [];
  mempool = [];
  treasury_balance = pos 0;
  burned_supply = pos 0;
  validator_status = [];
  validators = [];
  validator_wallets = [];
  blockchain = [];
  disk = record {
    saved_balances = none;
    saved_blockchain = none;
    saved_mempool = none;
    saved_nonce_table = none;
    saved_validators = none;
  };
}
