-- ===== src/Cache/DiskCache/Budget.antt =====
-- src/cache/disk_cache_manager.cpp: what `enforce` removes, and what is used after it.
use nuvio_engine.Common.{
  ℕ, ◌-◌, ◌≤◌, ◌≡◌, ◌⊎◌, List, [], ◌∷◌, ◌++◌, Bytes, All, ltb, In, ◌↔◌, length,
}
use nuvio_engine.Std.Results.{Exception, Result, ok, throws}
use nuvio_engine.Cache.DiskCache.{Candidate}
use nuvio_engine.Cache.DiskCache.Survey.{Survey, AreEvictable}
use nuvio_engine.Cache.DiskCache.Enforce.{DiskCacheManager, Enforced}
use nuvio_engine.Cache.DiskCache.Evictions.{freed, ids}

-- The statistics that are returned are the manager's, and say exactly whether it is over its budget.
pub record Accounts (target used : ℕ) (s : Survey) (rest : List Candidate) (after : Enforced)
    : Type 0 where
  pub result : after.result ≡ ok after.manager.stats
  pub used_bytes : after.manager.stats.used_bytes ≡ used
  pub protected_bytes : after.manager.stats.protected_bytes ≡ s.protected_bytes
  pub over_budget : after.manager.stats.over_budget ≡ ltb after.manager.stats.capacity_bytes used
  pub enough : (used ≤ target) ⊎ (rest ≡ [])

-- The candidates come with ascending times of their last use.
abbrev pub AreByAge : List Candidate → Type 0
AreByAge [] = Unit
AreByAge (c ∷ cs) = All (λ d. c.last_use ≤ d.last_use) cs × AreByAge cs

-- Candidates were tried in the order of their last use, the oldest first, none of them protected, and
-- none at all within the target; what is left counts, or a removal that failed was thrown.
pub record KeepsBudget (protected_torrents : List Bytes) (target : ℕ) (s : Survey)
    (m : DiskCacheManager) (after : Enforced) : Type 0 where
  pub tried : List Candidate
  pub rest : List Candidate
  pub oldest : AreByAge (tried ++ rest)
  pub same : (c : Candidate) → In c (tried ++ rest) ↔ In c s.candidates
  pub number : length (tried ++ rest) ≡ length s.candidates
  pub trace : after.tried ≡ ids tried
  pub evictable : AreEvictable protected_torrents tried
  pub frugal : s.used ≤ target → tried ≡ []
  pub capacity : after.manager.stats.capacity_bytes ≡ m.stats.capacity_bytes
  pub outcome :
      Accounts target (s.used - freed tried) s rest after
      ⊎ ((c : Candidate) × (x : Exception) × In c tried
          × (c.removal ≡ throws x)
          × (after.result ≡ throws x))

-- The call failed before it changed anything, or kept the budget.
unfoldable pub IsEnforced : List Bytes → ℕ → DiskCacheManager → Result Survey → Enforced → Type 0
IsEnforced protected_torrents target m (throws x) after =
    after ≡ record { manager = m; tried = []; result = throws x }
IsEnforced protected_torrents target m (ok s) after =
    KeepsBudget protected_torrents target s m after
