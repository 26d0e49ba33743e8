-- ===== src/Ledger/Storage.antt =====
-- ledger/storage.go, SaveAllData and LoadAllData of ledger/ledger.go, and SaveValidators and
-- LoadValidators of ledger/validator.go. The store is a cell for each key, and holds the value whose
-- JSON text the source writes there, with strings that are valid UTF-8 (encoding/json replaces other
-- bytes); a write does not fail. `InitDB` opens the store.
-- What is read decodes; decoding into a map keeps the entries that the text does not name, and
-- decoding into a slice replaces it.
use hyperlux_chain.Prelude.{none, some}
use hyperlux_chain.Prelude.Dict.{merge}
use hyperlux_chain.Ledger.Types.{State}

unfoldable pub save_balances : State → State
save_balances s = record s { disk = record (s.disk) { saved_balances = some s.balances } }

unfoldable pub save_blockchain : State → State
save_blockchain s = record s { disk = record (s.disk) { saved_blockchain = some s.blockchain } }

unfoldable pub save_mempool : State → State
save_mempool s = record s { disk = record (s.disk) { saved_mempool = some s.mempool } }

unfoldable pub save_nonce_table : State → State
save_nonce_table s = record s { disk = record (s.disk) { saved_nonce_table = some s.nonce_table } }

unfoldable pub save_validators : State → State
save_validators s = record s { disk = record (s.disk) { saved_validators = some s.validators } }

unfoldable pub save_all_data : State → State
unfolding save_balances save_blockchain save_mempool save_nonce_table save_validators
save_all_data s =
    save_validators (save_nonce_table (save_mempool (save_blockchain (save_balances s))))

unfoldable pub load_balances : State → State
load_balances s = elim s.disk.saved_balances [
  | none ↦ s
  | some m ↦ record s { balances = merge m s.balances }
]

unfoldable pub load_blockchain : State → State
load_blockchain s = elim s.disk.saved_blockchain [
  | none ↦ s
  | some bs ↦ record s { blockchain = bs }
]

unfoldable pub load_mempool : State → State
load_mempool s = elim s.disk.saved_mempool [ none ↦ s | some txs ↦ record s { mempool = txs } ]

unfoldable pub load_nonce_table : State → State
load_nonce_table s = elim s.disk.saved_nonce_table [
  | none ↦ s
  | some m ↦ record s { nonce_table = merge m s.nonce_table }
]

unfoldable pub load_validators : State → State
load_validators s = elim s.disk.saved_validators [
  | none ↦ s
  | some vs ↦ record s { validators = vs }
]

unfoldable pub load_all_data : State → State
unfolding load_balances load_blockchain load_mempool load_nonce_table load_validators
load_all_data s =
    load_validators (load_nonce_table (load_mempool (load_blockchain (load_balances s))))
