-- ===== src/Lifecycle/Package.antt =====
-- The reading of packages in compatibility_service/pkg/lifecycle/package.go. The gzip, tar, JSON and
-- SHA-256 libraries are a parameter; `none` is an error of theirs.
pub mod Inspected
use Prim.Native.String.{◌++◌}
use text.Mathlib.Text.{starts_with, find?}
use fabric_x_chaincode_compa.Prelude.{
  ℕ, ◌≡◌, Bool, true, false, not, ◌||◌, Option, none, some, List, [], ◌∷◌, String, ◌==◌,
  if◌then◌else◌,
}
use fabric_x_chaincode_compa.Prelude.Exec.{Result, ok, err}
use fabric_x_chaincode_compa.Prelude.Assoc.{lookup, insert}

-- An entry of an archive as the tar reader gives it: the name in its header, whether it is a regular
-- file, and what can be read of it.
pub record TarEntry : Type 0 where
  pub name : String
  pub is_regular : Bool
  pub value : Option (List ℕ)

-- `clean` is `filepath.Clean` with `filepath.ToSlash`. `tar_entries` is `none` where the gzip stream
-- cannot be opened. The second part tells that the reader ends with an error after these entries.
pub record ArchiveLibraries : Type 0 where
  pub clean : String → String
  pub tar_entries : List ℕ → Option (List TarEntry × Bool)
  -- the text values of a JSON object
  pub json_texts : List ℕ → Option (List (String × String))
  pub sha256_hex : List ℕ → String

pub data Error : Type 0 where
  empty_package unreadable missing_metadata missing_code undecodable_metadata : Error
  label_required type_required wrong_type missing_connection undecodable_connection : Error
  address_required : Error

abbrev pub Files : Type 0
Files = List (String × List ℕ)

-- `strings.Contains`
abbrev has_part : String → String → Bool
has_part s part = elim (find? s part) [ none ↦ false | some i ↦ true ]

-- `tarName`: a path inside of the archive
unfoldable pub tar_name : (String → String) → String → Option String
tar_name clean path =
    let name = clean path in
    if name == "."
      || name == ""
      || starts_with name "../"
      || starts_with name "/"
      || has_part name "/../"
    then none
    else some name

-- The loop of `readTarGz` over the entries.
unfoldable pub read_entries : (String → String) → List TarEntry → Bool → Files → Option Files
unfolding tar_name
read_entries clean [] broken files = if broken then none else some files
read_entries clean (e ∷ es) broken files =
    let skip = read_entries clean es broken files in
    elim (tar_name clean e.name) [
      | none ↦ none
      | some name ↦ if not e.is_regular then skip else elim e.value [
        | none ↦ none
        | some value ↦ read_entries clean es broken (insert name value files)
      ]
    ]

unfoldable pub read_tar_gz : ArchiveLibraries → List ℕ → Option Files
unfolding read_entries
read_tar_gz lib bytes = elim (lib.tar_entries bytes) [
  | none ↦ none
  | some (es, broken) ↦ read_entries lib.clean es broken []
]

-- `metadataString`: a value that is absent or no text is empty
abbrev pub text_of : String → List (String × String) → String
text_of key m = elim (lookup key m) [ none ↦ "" | some v ↦ v ]

unfoldable pub connection_address : ArchiveLibraries → List ℕ → Result Error String
connection_address lib bytes = elim (lib.json_texts bytes) [
  | none ↦ err undecodable_connection
  | some m ↦ if text_of "address" m == "" then err address_required else ok (text_of "address" m)
]

pub record PackageDescriptor : Type 0 where
  pub label : String
  pub kind : String  -- `Type`
  pub package_id : String
  pub address : String
  pub metadata_json : List ℕ
  pub connection_json : List ℕ
  pub package_tgz : List ℕ

abbrev pub external_chaincode_type : String
external_chaincode_type = "external"

-- The part of `InspectPackageBytes` on `code.tar.gz`.
unfoldable pub inspect_code :
    ArchiveLibraries → List ℕ → List ℕ → List ℕ → String → String → Result Error PackageDescriptor
unfolding read_tar_gz connection_address
inspect_code lib bytes metadata code label kind = elim (read_tar_gz lib code) [
  | none ↦ err unreadable
  | some inner ↦ elim (lookup "connection.json" inner) [
    | none ↦ err missing_connection
    | some connection ↦ elim (connection_address lib connection) [
      | err e ↦ err e
      | ok address ↦ ok (record {
        label = label;
        kind = kind;
        package_id = label ++ ":" ++ lib.sha256_hex bytes;
        address = address;
        metadata_json = metadata;
        connection_json = connection;
        package_tgz = bytes;
      })
    ]
  ]
]

unfoldable pub inspect_outer :
    ArchiveLibraries → List ℕ → List ℕ → List ℕ → Result Error PackageDescriptor
unfolding inspect_code
inspect_outer lib bytes metadata code = elim (lib.json_texts metadata) [
  | none ↦ err undecodable_metadata
  | some m ↦
      if text_of "label" m == ""
      then err label_required
      else if text_of "type" m == ""
      then err type_required
      else if not (text_of "type" m == external_chaincode_type)
      then err wrong_type
      else inspect_code lib bytes metadata code (text_of "label" m) (text_of "type" m)
]

unfoldable pub inspect_package_bytes : ArchiveLibraries → List ℕ → Result Error PackageDescriptor
unfolding inspect_outer
inspect_package_bytes lib [] = err empty_package
inspect_package_bytes lib (b ∷ bs) = elim (read_tar_gz lib (b ∷ bs)) [
  | none ↦ err unreadable
  | some outer ↦ elim (lookup "metadata.json" outer) [
    | none ↦ err missing_metadata
    | some metadata ↦ elim (lookup "code.tar.gz" outer) [
      | none ↦ err missing_code
      | some code ↦ inspect_outer lib (b ∷ bs) metadata code
    ]
  ]
]
