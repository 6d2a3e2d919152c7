-- ===== src/Guardrails.antt =====
-- The per-tenant cost guardrails (pkg/storageguardrails/guardrails.go). Times and durations are
-- nanoseconds: a time is a natural number with 0 for the zero `time.Time`, a duration an integer.
-- `float64` is a parameter.
pub mod Laws
use kdrive.Common.{
  ℕ, ◌+◌, ◌-◌, ◌*◌, String, Bool, true, false, not, ◌&&◌, ◌||◌, if◌then◌else◌, ltb, leb, ◌==◌,
  str_eq, ℤ, pos, ltℤ, pos_part, Result, ok, err, ◌>>=◌, ◌>>◌, reject,
}
use kdrive.HotCache.{Float64}

abbrev pub day : ℕ
day = 24 * 3600 * 1000000000

abbrev pub wasabi_min_storage_days : ℕ
wasabi_min_storage_days = 90

pub record ProviderProfile (F : Type 0) : Type 0 where
  pub name : String
  pub min_storage_days : ℕ
  pub storage_usd_per_tb : F
  pub egress_ratio : F

pub record FairUseEgressBudget (F : Type 0) : Type 0 where
  pub tenant_id : String
  pub window_start : ℕ
  pub window_duration : ℤ
  pub egress_storage_ratio : F
  pub soft_cap_bytes : ℕ
  pub hard_cap_bytes : ℕ

pub record MinStorageTracker : Type 0 where
  pub tenant_id : String
  pub piece_id : String
  pub stored_at : ℕ
  pub deleted_at : ℕ
  pub min_storage_duration : ℤ

pub record CacheHitRatioTarget (F : Type 0) : Type 0 where
  pub tenant_id : String
  pub min : F
  pub window_duration : ℤ

pub record AlertThresholds (F : Type 0) : Type 0 where
  pub egress_budget_warn_ratio : F
  pub egress_budget_critical_ratio : F
  pub cache_hit_ratio_alert_min : F
  pub throttle_policy : String

pub record Guardrails (F : Type 0) : Type 0 where
  pub budget : FairUseEgressBudget F
  pub hit_ratio : CacheHitRatioTarget F
  pub thresholds : AlertThresholds F
  pub min_storage : ℤ

pub data GuardrailError : Type 0 where
  tenant_id_required egress_ratio_not_positive budget_window_not_positive : GuardrailError
  hard_cap_below_soft_cap hit_ratio_min_range hit_ratio_window_not_positive : GuardrailError
  warn_ratio_range critical_ratio_range warn_above_critical : GuardrailError
  min_storage_negative : GuardrailError

module _ {F : Type 0} ⦃fl : Float64 F⦄ where
  unfoldable pub profile_for : String → ProviderProfile F
  profile_for provider_name =
      if str_eq provider_name "wasabi"
      then record {
        name = "wasabi";
        min_storage_days = wasabi_min_storage_days;
        storage_usd_per_tb = fl.literal 699 2;
        egress_ratio = fl.literal 10 1;
      }
      else if str_eq provider_name "b2"
      then record {
        name = "b2";
        min_storage_days = 0;
        storage_usd_per_tb = fl.literal 60 1;
        egress_ratio = fl.literal 100 1;
      }
      else record {
        name = "s3";
        min_storage_days = 0;
        storage_usd_per_tb = fl.literal 230 1;
        egress_ratio = fl.literal 0 0;
      }

  unfoldable pub min_storage_of : ProviderProfile F → ℤ
  min_storage_of profile =
      if ltb 0 profile.min_storage_days then pos (profile.min_storage_days * day) else pos 0

  unfoldable pub default_guardrails_for_provider : String → String → Guardrails F
  unfolding profile_for min_storage_of
  default_guardrails_for_provider tenant_id provider_name =
      let profile = profile_for provider_name in
      record {
        budget = record {
          tenant_id = tenant_id;
          window_start = 0;
          window_duration = pos (30 * day);
          egress_storage_ratio = profile.egress_ratio;
          soft_cap_bytes = 0;
          hard_cap_bytes = 0;
        };
        hit_ratio = record {
          tenant_id = tenant_id;
          min = fl.literal 9 1;
          window_duration = pos (30 * day);
        };
        thresholds = record {
          egress_budget_warn_ratio = fl.literal 8 1;
          egress_budget_critical_ratio = fl.literal 95 2;
          cache_hit_ratio_alert_min = fl.literal 85 2;
          throttle_policy = "slowdown_origin_reads";
        };
        min_storage = min_storage_of profile;
      }

  unfoldable pub default_guardrails : String → Guardrails F
  unfolding default_guardrails_for_provider
  default_guardrails tenant_id = default_guardrails_for_provider tenant_id "wasabi"

  -- `x < 0 || x > 1`
  abbrev pub outside_unit : F → Bool
  outside_unit x = fl.lt x (fl.literal 0 0) || fl.lt (fl.literal 1 0) x

  unfoldable pub validate : Guardrails F → Result GuardrailError (Unit {0})
  validate g =
      reject (str_eq g.budget.tenant_id "") tenant_id_required
      >> (reject (fl.le g.budget.egress_storage_ratio (fl.literal 0 0)) egress_ratio_not_positive
          >> (reject (not (ltℤ (pos 0) g.budget.window_duration)) budget_window_not_positive
              >> (reject
                    (not (g.budget.hard_cap_bytes == 0)
                      && ltb g.budget.hard_cap_bytes g.budget.soft_cap_bytes)
                    hard_cap_below_soft_cap
                  >> (reject (outside_unit g.hit_ratio.min) hit_ratio_min_range
                      >> (reject (not (ltℤ (pos 0) g.hit_ratio.window_duration))
                            hit_ratio_window_not_positive
                          >> (reject (outside_unit g.thresholds.egress_budget_warn_ratio)
                                warn_ratio_range
                              >> (reject (outside_unit g.thresholds.egress_budget_critical_ratio)
                                    critical_ratio_range
                                  >> (reject
                                        (not (
                                            fl.eq g.thresholds.egress_budget_critical_ratio
                                              (fl.literal 0 0))
                                          && fl.lt g.thresholds.egress_budget_critical_ratio
                                              g.thresholds.egress_budget_warn_ratio)
                                        warn_above_critical
                                      >> reject (ltℤ g.min_storage (pos 0))
                                          min_storage_negative))))))))

-- `expiry.Sub(deletedAt)` is not negative behind the test. `duration` is positive where it is used.
unfoldable pub residual : ℕ → ℕ → ℕ → ℕ
residual stored_at duration deleted_at =
    let expiry = stored_at + duration in
    if not (ltb deleted_at expiry) then 0 else expiry - deleted_at

unfoldable pub residual_billable_window : MinStorageTracker → ℕ → ℕ
unfolding residual
residual_billable_window t now =
    if not (ltℤ (pos 0) t.min_storage_duration)
    then 0
    else residual t.stored_at (pos_part t.min_storage_duration)
        (if t.deleted_at == 0 then now else t.deleted_at)

pub record BudgetUsage (F : Type 0) : Type 0 where
  pub budget : FairUseEgressBudget F
  pub used_bytes : ℕ
  pub window_start : ℕ
  pub as_of : ℕ

unfoldable pub soft_cap_exceeded : {F : Type 0} → BudgetUsage F → Bool
soft_cap_exceeded u =
    if u.budget.soft_cap_bytes == 0 then false else leb u.budget.soft_cap_bytes u.used_bytes

unfoldable pub hard_cap_exceeded : {F : Type 0} → BudgetUsage F → Bool
hard_cap_exceeded u =
    if u.budget.hard_cap_bytes == 0 then false else leb u.budget.hard_cap_bytes u.used_bytes
