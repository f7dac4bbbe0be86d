-- ===== src/Lifecycle/Authorization/Operation.antt =====
-- The names of the operations in compatibility_service/pkg/lifecycle/request.go.
use fabric_x_chaincode_compa.Prelude.{String}

abbrev pub install : String
install = "install"

abbrev pub query_installed : String
query_installed = "queryinstalled"

abbrev pub approve : String
approve = "approveformyorg"

abbrev pub readiness : String
readiness = "checkcommitreadiness"

abbrev pub commit : String
commit = "commit"

abbrev pub query_committed : String
query_committed = "querycommitted"

abbrev pub mark_initialized : String
mark_initialized = "markinitialized"
