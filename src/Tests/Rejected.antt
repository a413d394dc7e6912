-- ===== src/Tests/Rejected.antt =====
-- The active contracts at concrete answers of the chain.
use mytonprovider_backend.Db.{ContractToProviderRelation}
use mytonprovider_backend.Tests.Data.{contract}

abbrev closed_one : ContractToProviderRelation
closed_one = contract "cc" "C1"
