-- ===== src/Lifecycle/Store/Listing.antt =====
-- The listing methods of `Store` in store.go and the resolution of a committed package.
use Prim.Native.Nat.{Ordering}
use Prim.Native.String.{compare}
use fabric_x_chaincode_compa.Prelude.{
  Bool, true, false, ◌&&◌, ◌||◌, Option, none, some, List, [], ◌∷◌, String, ◌==◌, if◌then◌else◌,
}
use fabric_x_chaincode_compa.Prelude.Exec.{◌>>=◌, pure, fail}
use fabric_x_chaincode_compa.Lifecycle.Definition.{Error, definition_matches}
use fabric_x_chaincode_compa.Lifecycle.Store.State.{
  InstalledPackage, ApprovedDefinition, CommittedDefinition, M, query, found,
}
use fabric_x_chaincode_compa.Lifecycle.Store.Table.{select_all}
use fabric_x_chaincode_compa.Lifecycle.Store.Operations.{get_installed, get_approval}

-- The order of two texts under `ORDER BY`: by their bytes.
abbrev pub text_leb : String → String → Bool
text_leb a b = elim (compare a b) [ Ordering.gt ↦ false | _ ↦ true ]

-- `ORDER BY first, second`
abbrev pub pair_leb : String → String → String → String → Bool
pair_leb a b c d = elim (compare a c) [
  | Ordering.lt ↦ true
  | Ordering.eq ↦ text_leb b d
  | Ordering.gt ↦ false
]

module _ {A : Type 0} (before : A → A → Bool) where
  unfoldable pub insert_ordered : A → List A → List A
  insert_ordered a [] = a ∷ []
  insert_ordered a (b ∷ bs) =
      let rest = insert_ordered a bs in if before a b then a ∷ b ∷ bs else b ∷ rest

  unfoldable pub order_by : List A → List A
  unfolding insert_ordered
  order_by [] = []
  order_by (a ∷ as') = insert_ordered a (order_by as')

unfoldable pub list_installed : M (List InstalledPackage)
unfolding order_by
list_installed =
    query (λ s. order_by (λ p q. pair_leb p.label p.package_id q.label q.package_id) s.installed)

-- the filters that `ListCommitted` puts into its query
abbrev pub listed : String → String → CommittedDefinition → Bool
listed name version c =
    (name == "" || c.definition.name == name) && (version == "" || c.definition.version == version)

unfoldable pub list_committed : String → String → M (List CommittedDefinition)
unfolding order_by
list_committed name version = query (λ s.
    order_by
      (λ c d.
        pair_leb c.definition.name c.definition.version d.definition.name d.definition.version)
      (select_all (listed name version) s.committed))

unfoldable pub resolve_approved :
    CommittedDefinition
    → String
    → Option ApprovedDefinition
    → M (Option (CommittedDefinition × InstalledPackage))
unfolding get_installed
resolve_approved c msp none = fail Error.no_package_approval
resolve_approved c msp (some approval) =
    if definition_matches approval.definition c.definition
    then (do
      looked_up ← get_installed approval.package_id
      pkg ← found Error.no_longer_installed looked_up
      pure (some (c, pkg)))
    else fail Error.no_package_approval

unfoldable pub resolve_listed :
    String → String → List CommittedDefinition → M (Option (CommittedDefinition × InstalledPackage))
unfolding get_approval resolve_approved
resolve_listed name msp [] = pure none
resolve_listed name msp (c ∷ []) = do
  approval ← get_approval c.definition msp
  resolve_approved c msp approval
resolve_listed name msp (c ∷ d ∷ more) =
    if name == ""
    then fail Error.many_committed
    else do approval ← get_approval c.definition msp; resolve_approved c msp approval

unfoldable pub resolve_committed_package :
    String → String → M (Option (CommittedDefinition × InstalledPackage))
unfolding list_committed resolve_listed
resolve_committed_package name msp = do
  definitions ← list_committed name ""
  resolve_listed name msp definitions
