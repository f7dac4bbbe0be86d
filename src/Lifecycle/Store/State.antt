-- ===== src/Lifecycle/Store/State.antt =====
-- The state of one `Store` (compatibility_service/pkg/lifecycle/store.go): the four tables of its
-- database and what the environment decides, namely which statements fail. Flags are the 0 and 1
-- that `boolInt` writes and the scans read, so they are Booleans here.
use fabric_x_chaincode_compa.Prelude.{
  ℕ, ◌+◌, Bool, Option, none, some, List, [], String, ◌==◌, if◌then◌else◌,
}
use fabric_x_chaincode_compa.Prelude.Int.{ℤ}
use fabric_x_chaincode_compa.Prelude.Exec.{ok, err, Exec, ◌>>◌, pure, fail, gets, modify}
use fabric_x_chaincode_compa.Lifecycle.Definition.{ChaincodeDefinition, Error, database}

pub record InstalledPackage : Type 0 where
  pub package_id : String
  pub label : String
  pub kind : String  -- `Type`
  pub address : String
  pub installed_by_msp : String
  pub installed_at : String
  pub metadata_json : List ℕ
  pub connection_json : List ℕ
  pub package_tgz : List ℕ

pub record ApprovedDefinition : Type 0 where
  pub definition : ChaincodeDefinition
  pub package_id : String
  pub approving_msp : String
  pub approved_at : String
  pub package_address : String

pub record CommittedDefinition : Type 0 where
  pub definition : ChaincodeDefinition
  pub committed_at : String
  pub initialized : Bool

pub record ResolvedConnection : Type 0 where
  pub msp_id : String
  pub name : String
  pub version : String
  pub sequence : ℤ
  pub address : String
  pub tls_mode : String
  pub package_id : String
  pub cached_at : String

-- A row of `approved_definitions`: an approval with no package address.
pub record ApprovalRow : Type 0 where
  pub definition : ChaincodeDefinition
  pub package_id : String
  pub approving_msp : String
  pub approved_at : String

pub record Store : Type 0 where
  pub channel_id : String
  pub installed : List InstalledPackage
  pub approved : List ApprovalRow
  pub committed : List CommittedDefinition
  pub connections : List ResolvedConnection
  -- the database refuses the n-th statement that the process sends to it
  pub broken : ℕ → Bool
  pub statements : ℕ

-- `NewMemoryStore` with the tables that `init` creates.
unfoldable pub new_memory_store : String → (ℕ → Bool) → Option Store
new_memory_store channel_id broken =
    if channel_id == ""
    then none
    else some (record {
      channel_id = channel_id;
      installed = [];
      approved = [];
      committed = [];
      connections = [];
      broken = broken;
      statements = 0;
    })

abbrev pub M : Type 0 → Type 0
M A = Exec Store Error A

-- The next statement, which the database may refuse without an effect.
unfoldable pub statement : M (Unit {0})
statement s =
    let s' = record s { statements = s.statements + 1 } in
    if s.broken s.statements then (err database, s') else (ok tt, s')

unfoldable pub query : {A : Type 0} → (Store → A) → M A
unfolding statement
query f = do statement; gets f

unfoldable pub execute : (Store → Store) → M (Unit {0})
unfolding statement
execute f = do statement; modify f

-- `if err := …; err != nil { return err }`
unfoldable pub check : Option Error → M (Unit {0})
check none = pure tt
check (some e) = fail e

-- `if !ok { return … }` after a lookup
unfoldable pub found : {A : Type 0} → Error → Option A → M A
found e none = fail e
found e (some a) = pure a

-- `if x == "" { return e }`
unfoldable pub present : Error → String → M (Unit {0})
present e x = if x == "" then fail e else pure tt
