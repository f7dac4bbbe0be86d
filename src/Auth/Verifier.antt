-- ===== src/Auth/Verifier.antt =====
-- compatibility_service/pkg/auth/msp.go: the identities that the trusted organizations vouch for.
-- The MSP, protobuf, PEM and X.509 libraries are a parameter. Times are nanoseconds.
use fabric_x_chaincode_compa.Prelude.{
  ℕ, Bool, true, false, ◌||◌, Option, none, some, List, [], ◌∷◌, String, ◌==◌, if◌then◌else◌,
}
use fabric_x_chaincode_compa.Prelude.Int.{ℤ, ltb_ℤ}
use fabric_x_chaincode_compa.Prelude.Exec.{Result, ok, err}

-- What the service uses of the libraries; `none` and `false` are errors.
pub record Libraries (Identity : Type 0) : Type 0 where
  pub unmarshal_creator : List ℕ → Option (String × List ℕ)
  pub deserialize_identity : String → List ℕ → Option Identity
  pub validate : Identity → Bool
  pub certificate_pem : Identity → Option (List ℕ)
  pub decode_pem : List ℕ → Option (List ℕ)
  pub parse_certificate : List ℕ → Option (ℤ × ℤ)  -- its `NotBefore` and `NotAfter`
  pub verify : Identity → List ℕ → List ℕ → Bool
  pub msp_identifier : Identity → String
  pub identifier : Identity → String

-- `identities` is `none` for the nil pointer of a verifier without MSPs.
pub record Verifier (Identity : Type 0) : Type 0 where
  pub identities : Option (Libraries Identity)

pub data Error : Type 0 where
  not_configured undecodable_creator incomplete_creator unknown_creator untrusted_creator : Error
  no_certificate not_pem unparsable_certificate outside_validity : Error
  nothing_signed invalid_signature : Error

abbrev pub is_empty : List ℕ → Bool
is_empty [] = true
is_empty (x ∷ xs) = false

module _ {Identity : Type 0} where
  -- `ValidateIdentityTime`
  unfoldable pub validate_identity_time : Libraries Identity → Identity → ℤ → Option Error
  validate_identity_time lib identity now = elim (lib.certificate_pem identity) [
    | none ↦ some no_certificate
    | some pem ↦ elim (lib.decode_pem pem) [
      | none ↦ some not_pem
      | some block ↦ elim (lib.parse_certificate block) [
        | none ↦ some unparsable_certificate
        | some cert ↦ if ltb_ℤ now cert.0 || ltb_ℤ cert.1 now then some outside_validity else none
      ]
    ]
  ]

  unfoldable pub identity : Option (Verifier Identity) → List ℕ → ℤ → Result Error Identity
  unfolding validate_identity_time
  identity none creator now = err not_configured
  identity (some v) creator now = elim v.identities [
    | none ↦ err not_configured
    | some lib ↦ elim (lib.unmarshal_creator creator) [
      | none ↦ err undecodable_creator
      | some serialized ↦
          if serialized.0 == "" || is_empty serialized.1
          then err incomplete_creator
          else elim (lib.deserialize_identity serialized.0 serialized.1) [
            | none ↦ err unknown_creator
            | some id ↦
                if lib.validate id
                then elim (validate_identity_time lib id now) [ some e ↦ err e | none ↦ ok id ]
                else err untrusted_creator
          ]
    ]
  ]

  -- `identity.Verify` of the library that made the identity
  abbrev pub verified : Option (Verifier Identity) → Identity → List ℕ → List ℕ → Bool
  verified none id message signature = false
  verified (some v) id message signature = elim v.identities [
    | none ↦ false
    | some lib ↦ lib.verify id message signature
  ]

  unfoldable pub authenticate :
      Option (Verifier Identity) → List ℕ → List ℕ → List ℕ → ℤ → Result Error Identity
  unfolding identity
  authenticate v creator message signature now =
      if is_empty message || is_empty signature
      then err nothing_signed
      else elim (identity v creator now) [
        | err e ↦ err e
        | ok id ↦ if verified v id message signature then ok id else err invalid_signature
      ]
