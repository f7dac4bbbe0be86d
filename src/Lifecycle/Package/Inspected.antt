-- ===== src/Lifecycle/Package/Inspected.antt =====
-- What the inspection of a package guarantees (InspectPackageBytes of package.go).
use Prim.Native.String.{◌++◌}
use fabric_x_chaincode_compa.Prelude.{
  ℕ, ◌≡◌, refl, sym, subst, inl, inr, true, false, some, List, [], ◌∷◌, String, ◌==◌, eq_iff, arith,
  Option-cases, Bool-cases,
}
use fabric_x_chaincode_compa.Prelude.Exec.{Result-cases, ok}
use fabric_x_chaincode_compa.Prelude.Assoc.{lookup}
use fabric_x_chaincode_compa.Lifecycle.Package.{
  ArchiveLibraries, Files, PackageDescriptor, text_of, external_chaincode_type, read_tar_gz,
  connection_address, inspect_code, inspect_outer, inspect_package_bytes,
}

-- The archive has this file.
abbrev pub HasFile : ArchiveLibraries → List ℕ → String → List ℕ → Type 0
HasFile lib bytes name file =
    (files : Files) × (read_tar_gz lib bytes ≡ some files) × (lookup name files ≡ some file)

pub record Inspected (lib : ArchiveLibraries) (bytes : List ℕ) (d : PackageDescriptor)
    : Type 0 where
  pub code : List ℕ
  pub metadata : HasFile lib bytes "metadata.json" d.metadata_json
  pub outer : HasFile lib bytes "code.tar.gz" code
  pub inner : HasFile lib code "connection.json" d.connection_json
  pub texts : List (String × String)
  pub decoded : lib.json_texts d.metadata_json ≡ some texts
  pub label : d.label ≡ text_of "label" texts
  pub labelled : (d.label == "") ≡ false
  pub kind : d.kind ≡ external_chaincode_type
  pub address : connection_address lib d.connection_json ≡ ok d.address
  pub addressed : (d.address == "") ≡ false
  pub identifier : d.package_id ≡ d.label ++ ":" ++ lib.sha256_hex bytes
  pub content : d.package_tgz ≡ bytes

address_not_empty :
    (lib : ArchiveLibraries) (bytes : List ℕ) {a : String}
    → connection_address lib bytes ≡ ok a
    → (a == "") ≡ false
unfolding connection_address
address_not_empty lib bytes {a} h = elim (Option-cases (lib.json_texts bytes)) [
  | inl e ↦ absurd (ground arith)
  | inr (m, e) ↦ elim (Bool-cases (text_of "address" m == "")) [
    | inl b ↦ absurd (ground arith)
    | inr b ↦ subst (λ x. (x == "") ≡ false) (ground arith) b
  ]
]

module _ (lib : ArchiveLibraries) (bytes metadata code : List ℕ) where
  -- What the inner archive gives.
  record Inner (label kind : String) (d : PackageDescriptor) : Type 0 where
    connection : List ℕ
    address : String
    has_connection : HasFile lib code "connection.json" connection
    addressed : connection_address lib connection ≡ ok address
    is : d ≡ record {
      label = label;
      kind = kind;
      package_id = label ++ ":" ++ lib.sha256_hex bytes;
      address = address;
      metadata_json = metadata;
      connection_json = connection;
      package_tgz = bytes;
    }

  inspect_code-Inner :
      (label kind : String) {d : PackageDescriptor}
      → inspect_code lib bytes metadata code label kind ≡ ok d
      → Inner label kind d
  unfolding inspect_code
  inspect_code-Inner label kind {d} h = elim (Option-cases (read_tar_gz lib code)) [
    | inl e ↦ absurd (ground arith)
    | inr (files, e) ↦ elim (Option-cases (lookup "connection.json" files)) [
      | inl f ↦ absurd (ground arith)
      | inr (c, f) ↦ elim (Result-cases (connection_address lib c)) [
        | inl (x, g) ↦ absurd (ground arith)
        | inr (a, g) ↦ record {
          connection = c;
          address = a;
          has_connection = (files, e, f);
          addressed = g;
          is = ground arith;
        }
      ]
    ]
  ]

  -- What the metadata must say.
  record Outer (d : PackageDescriptor) : Type 0 where
    texts : List (String × String)
    decoded : lib.json_texts metadata ≡ some texts
    labelled : (text_of "label" texts == "") ≡ false
    external : (text_of "type" texts == external_chaincode_type) ≡ true
    inner : Inner (text_of "label" texts) (text_of "type" texts) d

  inspect_outer-Outer :
      {d : PackageDescriptor} → inspect_outer lib bytes metadata code ≡ ok d → Outer d
  unfolding inspect_outer
  inspect_outer-Outer {d} h = elim (Option-cases (lib.json_texts metadata)) [
    | inl e ↦ absurd (ground arith)
    | inr (m, e) ↦ record {
      texts = m;
      decoded = e;
      labelled = ground arith;
      external = ground arith;
      inner = inspect_code-Inner (text_of "label" m) (text_of "type" m) (ground arith);
    }
  ]

-- A package that is accepted is an archive with a metadata file, whose label is not empty and whose
-- type is the external one, and with an inner archive whose connection file names an address that
-- is not empty. Its ID is the label with the SHA-256 of exactly the bytes of the package.
pub inspect_package_bytes-ok :
    (lib : ArchiveLibraries) (bytes : List ℕ) {d : PackageDescriptor}
    → inspect_package_bytes lib bytes ≡ ok d
    → Inspected lib bytes d
unfolding inspect_package_bytes
inspect_package_bytes-ok lib [] h = absurd (ground arith)
inspect_package_bytes-ok lib (b ∷ bs) {d} h = elim (Option-cases (read_tar_gz lib (b ∷ bs))) [
  | inl e ↦ absurd (ground arith)
  | inr (files, e) ↦ elim (Option-cases (lookup "metadata.json" files)) [
    | inl f ↦ absurd (ground arith)
    | inr (m, f) ↦ elim (Option-cases (lookup "code.tar.gz" files)) [
      | inl g ↦ absurd (ground arith)
      | inr (c, g) ↦ gather files m c e f g (inspect_outer-Outer lib (b ∷ bs) m c (ground arith))
    ]
  ]
]
  where
    gather :
        (files : Files) (m c : List ℕ)
        → read_tar_gz lib (b ∷ bs) ≡ some files
        → lookup "metadata.json" files ≡ some m
        → lookup "code.tar.gz" files ≡ some c
        → Outer lib (b ∷ bs) m c d
        → Inspected lib (b ∷ bs) d
    gather files m c e f g o =
        let i = o.inner in
        subst (Inspected lib (b ∷ bs)) (sym i.is) (record {
          code = c;
          metadata = (files, e, f);
          outer = (files, e, g);
          inner = i.has_connection;
          texts = o.texts;
          decoded = o.decoded;
          label = refl;
          labelled = o.labelled;
          kind = (eq_iff _ _).0 o.external;
          address = i.addressed;
          addressed = address_not_empty lib i.connection i.addressed;
          identifier = refl;
          content = refl;
        })
