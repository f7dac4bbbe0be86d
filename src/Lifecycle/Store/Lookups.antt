-- ===== src/Lifecycle/Store/Lookups.antt =====
-- What the lookups of the store return, and that they change no table.
use fabric_x_chaincode_compa.Prelude.{
  ◌+◌, ◌≡◌, refl, false, Option, none, some, String, arith, ◌==◌,
}
use fabric_x_chaincode_compa.Prelude.Exec.{ok, ◌>>=◌}
use fabric_x_chaincode_compa.Lifecycle.Definition.{ChaincodeDefinition, Error, validate_definition}
use fabric_x_chaincode_compa.Lifecycle.Store.State.{
  Store, InstalledPackage, ApprovedDefinition, CommittedDefinition, statement, query, execute,
  check, present,
}
use fabric_x_chaincode_compa.Lifecycle.Store.Table.{select}
use fabric_x_chaincode_compa.Lifecycle.Store.Operations.{
  has_id, has_approval_key, joined, get_installed, get_committed, get_approval,
}
use fabric_x_chaincode_compa.Lifecycle.Store.Revisions.{view}

pub record SameTables (s t : Store) : Type 0 where
  pub installed : t.installed ≡ s.installed
  pub approved : t.approved ≡ s.approved
  pub committed : t.committed ≡ s.committed
  pub connections : t.connections ≡ s.connections

pub SameTables-refl : (s : Store) → SameTables s s
SameTables-refl s = record {
  installed = refl;
  approved = refl;
  committed = refl;
  connections = refl;
}

pub SameTables-trans : {s t u : Store} → SameTables s t → SameTables t u → SameTables s u
SameTables-trans h k = ground arith

-- The approval that a query for this definition and MSP finds.
unfoldable pub approval_of : Store → ChaincodeDefinition → String → Option ApprovedDefinition
approval_of s def msp = joined s.installed (select (has_approval_key def msp) s.approved)

unfoldable pub installed_of : Store → String → Option InstalledPackage
installed_of s id = select (has_id id) s.installed

module _ {A : Type 0} (f : Store → A) {s t : Store} {a : A} where
  pub query-ok :
      query f s ≡ (ok a, t) → (a ≡ f (record s { statements = s.statements + 1 })) × SameTables s t
  unfolding query statement ◌>>=◌
  query-ok h = ground arith

pub check-ok :
    (e : Option Error) {s t : Store} {u : Unit {0}} → check e s ≡ (ok u, t) → (e ≡ none) × (s ≡ t)
unfolding check ◌>>=◌
check-ok none h = ground arith
check-ok (some e) h = ground arith

pub present-ok :
    (e : Error) (x : String) {s t : Store} {u : Unit {0}}
    → present e x s ≡ (ok u, t)
    → ((x == "") ≡ false) × (s ≡ t)
unfolding present ◌>>=◌
present-ok e x h = ground arith

pub get_committed-ok :
    (name : String) {s t : Store} {o : Option CommittedDefinition}
    → get_committed name s ≡ (ok o, t)
    → (o ≡ view s name) × SameTables s t
unfolding get_committed present query statement view ◌>>=◌
get_committed-ok name h = ground arith

pub get_installed-ok :
    (id : String) {s t : Store} {o : Option InstalledPackage}
    → get_installed id s ≡ (ok o, t)
    → (o ≡ installed_of s id) × SameTables s t
unfolding get_installed present query statement installed_of ◌>>=◌
get_installed-ok id h = ground arith

pub get_approval-ok :
    (def : ChaincodeDefinition) (msp : String) {s t : Store} {o : Option ApprovedDefinition}
    → get_approval def msp s ≡ (ok o, t)
    → (validate_definition def ≡ none) × (o ≡ approval_of s def msp) × SameTables s t
unfolding get_approval check query statement approval_of ◌>>=◌
get_approval-ok def msp h = ground arith

pub execute-ok :
    (f : Store → Store) (s : Store) {t : Store} {u : Unit {0}}
    → execute f s ≡ (ok u, t)
    → t ≡ f (record s { statements = s.statements + 1 })
unfolding execute statement ◌>>=◌
execute-ok f s h = ground arith
