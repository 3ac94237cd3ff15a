-- ===== src/Memory/Quotas.antt =====
-- memoryquota.go: MemoryQuotaStorage, with QuotaUsage of ports.go. A map is a function into `Option`.
mod Tests
use go_block_walk.Prelude.{
  ℕ, suc, ◌≡◌, Bool, true, false, ◌&&◌, Option, none, some, Text, arith, if◌then◌else◌,
  Option-cases, inl, inr, Bool-cases,
}
use go_block_walk.Prelude.Int.{ℤ}
use go_block_walk.Prelude.Strings.{text_eq, text_eq_refl}

pub record QuotaUsage : Type 0 where
  pub id : ℕ
  pub provider : Text
  pub quota_type : Text
  pub used : ℤ
  pub reset_at : ℤ
  pub updated_at : ℤ

pub record QuotaKey : Type 0 where
  pub provider : Text
  pub quota_type : Text

unfoldable pub key_eq : QuotaKey → QuotaKey → Bool
key_eq j k = text_eq j.provider k.provider && text_eq j.quota_type k.quota_type

pub record MemoryQuotaStorage : Type 0 where
  pub quota : QuotaKey → Option QuotaUsage
  pub next_quota_id : ℕ

unfoldable pub new_memory_quota_storage : MemoryQuotaStorage
new_memory_quota_storage = record { quota = λ _. none; next_quota_id = 0 }

unfoldable pub get_quota_usage : MemoryQuotaStorage → QuotaKey → Option QuotaUsage
get_quota_usage m key = m.quota key

-- The id to store under, and the counter after it.
abbrev pub id_for : Option QuotaUsage → ℕ → ℕ × ℕ
id_for none next = (suc next, suc next)
id_for (some existing) next = (existing.id, next)

unfoldable pub set_quota_usage : MemoryQuotaStorage → QuotaKey → ℤ → ℤ → ℤ → MemoryQuotaStorage
set_quota_usage m key used reset_at now =
    let (id, next) = id_for (m.quota key) m.next_quota_id in
    let usage : QuotaUsage = record {
      id = id;
      provider = key.provider;
      quota_type = key.quota_type;
      used = used;
      reset_at = reset_at;
      updated_at = now;
    } in
    record { quota = λ k. if key_eq k key then some usage else m.quota k; next_quota_id = next }

key_eq_refl : (k : QuotaKey) → key_eq k k ≡ true
unfolding key_eq
key_eq_refl k = ground (arith, text_eq_refl k.provider, text_eq_refl k.quota_type)

-- A read gives what was last written under its key, with the id of the key's first write kept and a
-- fresh id otherwise; the other keys read as before.
pub get-set_quota_usage :
    (m : MemoryQuotaStorage) (key : QuotaKey) (used reset_at now : ℤ)
    → let m' = set_quota_usage m key used reset_at now in
      (get_quota_usage m' key
        ≡ some (record {
          id = (id_for (m.quota key) m.next_quota_id).0;
          provider = key.provider;
          quota_type = key.quota_type;
          used = used;
          reset_at = reset_at;
          updated_at = now;
        }))
      × ((k : QuotaKey) → key_eq k key ≡ false → get_quota_usage m' k ≡ get_quota_usage m k)
unfolding set_quota_usage get_quota_usage
get-set_quota_usage m key used reset_at now = (rw (key_eq_refl key), λ k other. rw other)
