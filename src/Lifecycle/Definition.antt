-- ===== src/Lifecycle/Definition.antt =====
-- `ChaincodeDefinition` of compatibility_service/pkg/lifecycle/store.go with its validation and
-- the revision rule.
use fabric_x_chaincode_compa.Prelude.{
  ◌≡◌, Bool, true, ◌&&◌, Option, none, some, String, arith, ◌==◌, eq_iff, eq_refl, bool_eq,
  if◌then◌else◌,
}
use fabric_x_chaincode_compa.Prelude.Int.{ℤ, pos, eqb_ℤ, leb_ℤ, succ_int64}

pub record ChaincodeDefinition : Type 0 where
  pub name : String
  pub version : String
  pub sequence : ℤ
  pub init_required : Bool

-- The errors of the lifecycle store. `database` is any error that a SQL statement returns.
pub data Error : Type 0 where
  name_required version_required sequence_not_positive package_id_required : Error
  approving_msp_required msp_required address_required : Error
  not_installed no_longer_installed approval_mismatch not_approved no_package_approval : Error
  initial_sequence name_change next_sequence conflicting_ledger : Error
  not_committed init_mismatch init_not_required many_committed database : Error

pub Error-discrete : Discrete Error
Error-discrete = hlevel

unfoldable pub validate_definition : ChaincodeDefinition → Option Error
validate_definition def =
    if def.name == ""
    then some name_required
    else if def.version == ""
    then some version_required
    else if leb_ℤ def.sequence (pos 0)
    then some sequence_not_positive
    else none

unfoldable pub definition_matches : ChaincodeDefinition → ChaincodeDefinition → Bool
definition_matches left right =
    left.name == right.name
    && left.version == right.version
    && eqb_ℤ left.sequence right.sequence
    && bool_eq left.init_required right.init_required

-- `ValidateNextSequence`; the first argument is `nil` when no revision is active.
unfoldable pub validate_next_sequence :
    Option ChaincodeDefinition → ChaincodeDefinition → Option Error
validate_next_sequence current next = elim (validate_definition next) [
  | some e ↦ some e
  | none ↦ elim current [
    | none ↦ if eqb_ℤ next.sequence (pos 1) then none else some initial_sequence
    | some active ↦
        if active.name == next.name
        then (if eqb_ℤ next.sequence (succ_int64 active.sequence) then none else some next_sequence)
        else some name_change
  ]
]

pub definition_matches→eq :
    (left right : ChaincodeDefinition) → definition_matches left right ≡ true → left ≡ right
unfolding definition_matches
definition_matches→eq l r h = ground (arith, eq_iff l.name r.name, eq_iff l.version r.version)

pub definition_matches_refl : (d : ChaincodeDefinition) → definition_matches d d ≡ true
unfolding definition_matches
definition_matches_refl d = ground (arith, eq_refl d.name, eq_refl d.version)
