-- ===== src/Orchestrator/Endorsement/Rules.antt =====
-- compatibility_service/pkg/orchestrator/endorsement_policy.go: signature policy rules, and their
-- inspection when a namespace policy is compiled. Principals stand here as the protobuf library
-- decodes them; `malformed` is one that it refuses.
use fabric_x_chaincode_compa.Prelude.{
  ℕ, suc, Bool, true, false, ◌||◌, none, some, List, [], ◌∷◌, ◌++◌, String, ◌==◌, get_elem?, ltb,
  if◌then◌else◌,
}
use fabric_x_chaincode_compa.Prelude.Int.{ℤ, pos, pos_part, ltb_ℤ}
use fabric_x_chaincode_compa.Prelude.Exec.{Result, ok, err}

-- `common.SignaturePolicy`: `missing` is a nil rule, `no_threshold` an NOutOf without its message,
-- and `other` any rule of another type.
mutual
  pub data SignaturePolicy : Type 0 where
    missing : SignaturePolicy
    other : SignaturePolicy
    no_threshold : SignaturePolicy
    signed_by : ℤ → SignaturePolicy
    n_out_of : ℤ → Rules → SignaturePolicy

  pub data Rules : Type 0 where
    nil : Rules
    cons : SignaturePolicy → Rules → Rules

mutual
  pub data Principal : Type 0 where
    absent : Principal
    malformed : Principal
    unsupported : Principal
    anonymity : Principal
    role : String → Principal
    organization_unit : String → Principal
    identity : String → Principal
    combined : Principals → Principal

  pub data Principals : Type 0 where
    no_more : Principals
    and_also : Principal → Principals → Principals

pub data Error : Type 0 where
  empty_rule unsupported_rule out_of_range invalid_threshold : Error
  nil_principal undecodable empty_combined unsupported_principal msp_required : Error

-- What an inspection collects: `targetMSPs` and `unscoped`.
pub record Hints : Type 0 where
  pub target_msps : List String
  pub unscoped : Bool

abbrev contains : String → List String → Bool
contains x [] = false
contains x (y ∷ ys) = y == x || contains x ys

unfoldable pub add_target : String → Hints → Result Error Hints
add_target msp h =
    if msp == ""
    then err msp_required
    else if contains msp h.target_msps
    then ok h
    else ok (record h { target_msps = h.target_msps ++ msp ∷ [] })

abbrev pub and_then : {A B : Type 0} → Result Error A → (A → Result Error B) → Result Error B
and_then (ok a) f = f a
and_then (err e) f = err e

abbrev is_empty : Principals → Bool
is_empty no_more = true
is_empty (and_also p ps) = false

unfoldable mutual
  unfolding add_target

  pub inspect_principal : Principal → Hints → Result Error Hints
  inspect_principal absent h = err nil_principal
  inspect_principal malformed h = err undecodable
  inspect_principal unsupported h = err unsupported_principal
  inspect_principal anonymity h = ok (record h { unscoped = true })
  inspect_principal (role msp) h = add_target msp h
  inspect_principal (organization_unit msp) h = add_target msp h
  inspect_principal (identity msp) h = add_target msp h
  inspect_principal (combined ps) h =
      let inner = inspect_principals ps h in if is_empty ps then err empty_combined else inner

  pub inspect_principals : Principals → Hints → Result Error Hints
  inspect_principals no_more h = ok h
  inspect_principals (and_also p ps) h = and_then (inspect_principal p h) (inspect_principals ps)

abbrev pub count_rules : Rules → ℕ
count_rules nil = 0
count_rules (cons r rs) = suc (count_rules rs)

-- the guard on `SignedBy`, and the principal that it names
unfoldable pub inspect_signer : List Principal → ℤ → Hints → Result Error Hints
unfolding inspect_principal
inspect_signer principals i h =
    if ltb_ℤ i (pos 0) then err out_of_range else elim (get_elem? principals (pos_part i)) [
      | none ↦ err out_of_range
      | some p ↦ inspect_principal p h
    ]

unfoldable mutual
  unfolding inspect_signer

  pub inspect_rule : List Principal → SignaturePolicy → Hints → Result Error Hints
  inspect_rule principals missing h = err empty_rule
  inspect_rule principals other h = err unsupported_rule
  inspect_rule principals no_threshold h = err invalid_threshold
  inspect_rule principals (signed_by i) h = inspect_signer principals i h
  inspect_rule principals (n_out_of n rs) h =
      let inner = inspect_rules principals rs h in
      if ltb_ℤ n (pos 0) || ltb (count_rules rs) (pos_part n) then err invalid_threshold else inner

  pub inspect_rules : List Principal → Rules → Hints → Result Error Hints
  inspect_rules principals nil h = ok h
  inspect_rules principals (cons r rs) h =
      and_then (inspect_rule principals r h) (inspect_rules principals rs)
