-- ===== src/Memory/Quotas/Tests.antt =====
-- The quota storage on a concrete write.
use go_block_walk.Prelude.{codes}
use go_block_walk.Memory.Quotas.{QuotaKey}

abbrev alchemy : QuotaKey
alchemy = record { provider = codes "alchemy"; quota_type = codes "requests" }
