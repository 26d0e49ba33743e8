-- ===== src/Cli.antt =====
-- The package cli (cli/cli.go): one run of the program with its arguments. A run starts from what
-- the store and the files hold, and what it leaves in memory is gone when it ends.
pub mod Args
pub mod Spam
pub mod Handlers
pub mod Rounds
pub mod Run
pub mod Volatile
use hyperlux_chain.Prelude.{ℕ, false, Option, none, List, []}
use hyperlux_chain.Prelude.Int.{ℤ, pos}
use hyperlux_chain.Prelude.Str.{Str}
use hyperlux_chain.Primitives.{Primitives, SliceSort, Schedule}
use hyperlux_chain.Ledger.Types.{State, Wallet, empty_state}
use hyperlux_chain.Ledger.Batch.{nonce_less}
use hyperlux_chain.Ledger.ValidatorFiles.{Folder, name_less}
use hyperlux_chain.Wallet.{KeyLibrary, Files}
use hyperlux_chain.Consensus.{Node, Readings}

-- The libraries that the commands use.
pub record Libraries : Type 0 where
  pub primitives : Primitives
  pub keys : KeyLibrary
  pub tx_sort : SliceSort nonce_less
  pub dir_sort : SliceSort name_less
  -- `time.ParseDuration`, in nanoseconds; `none` is its error
  pub parse_duration : Str → Option ℤ
  -- `os.ReadDir` of a folder of `files`, by name; `none` is its error
  pub read_dir : Files → Str → Option (List Str)

-- What the world gives to one run: clock readings, the order in which goroutines get on, random
-- bytes and generated keys. What is asked for several times is a function of how often it was; the
-- random bytes of each round are a function of their own.
pub record Inputs : Type 0 where
  pub now : ℤ
  pub readings : ℕ → Readings
  pub arrivals : ℕ → List Str
  pub draws : ℕ → ℕ → Str
  pub fresh : ℕ → Wallet
  pub schedule : ℕ → Schedule (Wallet × Str)

-- The process and the files that it can reach: the folder "validators", and all other files by
-- their paths.
pub record Machine : Type 0 where
  pub node : Node
  pub validators_dir : Folder
  pub files : Files

-- A run returns, ends by `log.Fatal`, or panics.
pub data Exit : Type 0 where
  returned fatal panicked : Machine → Exit

abbrev pub machine_of : Exit → Machine
machine_of (returned m) = m
machine_of (fatal m) = m
machine_of (panicked m) = m

abbrev pub with_ledger : Machine → State → Machine
with_ledger m s = record m { node = record (m.node) { ledger = s } }

-- A new process: of the node only what is on disk is left.
abbrev pub new_process : Machine → Machine
new_process m = record m {
  node = record {
    ledger = record empty_state { disk = m.node.ledger.disk };
    poh_chain = [];
    poh_slot = pos 0;
    delegates = [];
    last_block_wall = none;
    last_tps = (0, pos 0);
    committing = false;
  };
}
